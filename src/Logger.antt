-- ===== src/Logger.antt =====
-- internal/logger/logger.go, and the identifiers of internal/instanceid/new.go that the loggers and
-- the clients carry.
use qpub_go.Prelude.{
  ℕ, ◌+◌, Bool, true, ◌&&◌, Option, none, some, [], ◌∷◌, ◌++◌, ◌⊎◌, inl, inr, leb, ◌==◌,
  if◌then◌else◌,
}
use qpub_go.Prelude.Text.{Text, codes}
use qpub_go.Prelude.Dict.{Dict, lookup}
use qpub_go.Options.{Options}

pub record Logger : Type 0 where
  pub instance_id : Text
  pub component : Text
  pub opts : Options

pub record Factory : Type 0 where
  pub instance_id : Text
  pub opts : Options

unfoldable pub new_factory : Text → Options → Factory
new_factory instance_id opts = record { instance_id = instance_id; opts = opts }

unfoldable pub create : Text → Factory → Logger
create component f = record { instance_id = f.instance_id; component = component; opts = f.opts }

unfoldable pub level_rank : Dict ℕ
level_rank =
    (codes "trace", 0)
    ∷ (codes "debug", 1)
    ∷ (codes "info", 2)
    ∷ (codes "warn", 3)
    ∷ (codes "error", 4)
    ∷ []

abbrev lower : ℕ → ℕ
lower c = if leb b'A' c && leb c b'Z' then c + 32 else c

-- `strings.ToLower`. Of the characters outside ASCII only U+0130, whose UTF-8 is 0xC4 0xB0, has a lower
-- case that stands in the name of a level; the bytes of the others are left alone, which makes no such
-- name either.
unfoldable pub to_lower : Text → Text
to_lower [] = []
to_lower (c ∷ []) = lower c ∷ []
to_lower (c ∷ d ∷ s) =
    let rest = to_lower (d ∷ s) in
    let after = to_lower s in if (c == 0xC4) && (d == 0xB0) then b'i' ∷ after else lower c ∷ rest

-- A name that the map lacks has the rank 0.
abbrev or_zero : Option ℕ → ℕ
or_zero none = 0
or_zero (some n) = n

abbrev pub rank : Text → ℕ
rank level = or_zero (lookup (to_lower level) level_rank)

unfoldable pub should_log : Text → Logger → Bool
should_log level l = if l.opts.debug then true else leb (rank l.opts.log_level) (rank level)

-- The line that is printed, if any, of a message after `fmt.Sprintf`.
unfoldable pub log : Text → Text → Logger → Option Text
log level msg l =
    if should_log level l
    then some (
        codes "["
        ++ (level
            ++ (codes "]["
                ++ (l.instance_id ++ (codes "][" ++ (l.component ++ (codes "] " ++ msg)))))))
    else none

-- The identifiers, over the library that makes a UUID or fails.
unfoldable pub new_socket : Text ⊎ Text → Text ⊎ Text
new_socket (inl e) = inl e
new_socket (inr u) = inr (codes "socket_" ++ u)

unfoldable pub new_rest : Text ⊎ Text → Text ⊎ Text
new_rest (inl e) = inl e
new_rest (inr u) = inr (codes "rest_" ++ u)

-- `MustNewSocket` and `MustNewRest`, where `none` is the panic.
abbrev pub must : Text ⊎ Text → Option Text
must (inl e) = none
must (inr id) = some id
