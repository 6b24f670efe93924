-- ===== src/Emitter.antt =====
-- internal/emitter/emitter.go: listeners by event. A `func` value is a number that stands for it;
-- what it does when called is `run`, which may use the emitter again.
use qpub_go.Prelude.{
  ℕ, Bool, false, Option, none, some, List, [], ◌∷◌, ◌++◌, ◌≡◌, ◌∙◌, refl, ap, if◌then◌else◌,
  Bool-cases, inl, inr,
}
use qpub_go.Prelude.Text.{Text, same, eq_of_same}
use qpub_go.Prelude.Dict.{Dict, lookup, insert, lookup-insert}

pub record Emitter : Type 0 where
  pub listeners : Dict (List ℕ)

unfoldable pub new_emitter : Emitter
new_emitter = record { listeners = [] }

abbrev or_none : Option (List ℕ) → List ℕ
or_none none = []
or_none (some l) = l

-- `e.listeners[event]`
abbrev pub listeners_of : Text → Emitter → List ℕ
listeners_of event e = or_none (lookup event e.listeners)

unfoldable pub on : Text → ℕ → Emitter → Emitter
on event fn e = record e { listeners = insert event (listeners_of event e ++ fn ∷ []) e.listeners }

unfoldable pub same_listener : ℕ → ℕ → Bool
same_listener a b = false

-- The list without the first listener that is the same, if one is.
unfoldable pub remove_first : ℕ → List ℕ → Option (List ℕ)
remove_first fn [] = none
remove_first fn (f ∷ fs) =
    let rest = remove_first fn fs in
    if same_listener f fn then some fs else elim rest [ none ↦ none | some l ↦ some (f ∷ l) ]

abbrev replace : Text → Option (List ℕ) → Emitter → Emitter
replace event none e = e
replace event (some l) e = record e { listeners = insert event l e.listeners }

unfoldable pub off : Text → ℕ → Emitter → Emitter
off event fn e = replace event (remove_first fn (listeners_of event e)) e

unfoldable pub remove_all : Emitter → Emitter
remove_all e = new_emitter

module _ {W T : Type 0} (emitter : W → Emitter) (run : ℕ → T → W → W) where
  unfoldable pub run_all : List ℕ → T → W → W
  run_all [] payload w = w
  run_all (fn ∷ fns) payload w = run_all fns payload (run fn payload w)

  unfoldable pub emit : Text → T → W → W
  emit event payload w = run_all (listeners_of event (emitter w)) payload w

-- A call of `On`, `Off`, or `RemoveAll`.
pub data Call : Type 0 where
  adds removes : Text → ℕ → Call
  clears : Call

unfoldable pub apply : Call → Emitter → Emitter
apply (adds event fn) e = on event fn e
apply (removes event fn) e = off event fn e
apply clears e = remove_all e

unfoldable pub apply_all : List Call → Emitter → Emitter
apply_all [] e = e
apply_all (c ∷ cs) e = apply_all cs (apply c e)

-- What the calls leave registered for an event, after `already`: all that was added since it was
-- last cleared, in order.
abbrev pub registered : Text → List ℕ → List Call → List ℕ
registered event already [] = already
registered event already (adds name fn ∷ cs) =
    registered event (if same name event then already ++ fn ∷ [] else already) cs
registered event already (removes name fn ∷ cs) = registered event already cs
registered event already (clears ∷ cs) = registered event [] cs

remove_first_lem : (fn : ℕ) (fns : List ℕ) → remove_first fn fns ≡ none
unfolding remove_first same_listener
remove_first_lem fn [] = refl
remove_first_lem fn (f ∷ fns) = rw (remove_first_lem fn fns) refl

off_lem : (event : Text) (fn : ℕ) (e : Emitter) → off event fn e ≡ e
unfolding off
off_lem event fn e = rw (remove_first_lem fn (listeners_of event e)) refl

listeners_of-on :
    (event name : Text) (fn : ℕ) (e : Emitter)
    → listeners_of event (on name fn e)
      ≡ (if same name event then listeners_of event e ++ fn ∷ [] else listeners_of event e)
unfolding on
listeners_of-on event name fn e =
    rw (lookup-insert name event (listeners_of name e ++ fn ∷ []) e.listeners)
      (elim (Bool-cases (same name event)) [
        | inl h ↦ rw (h, eq_of_same name event h) refl
        | inr h ↦ rw (h) refl
      ])

listeners_of-apply_all :
    (event : Text) (calls : List Call) (e : Emitter)
    → listeners_of event (apply_all calls e) ≡ registered event (listeners_of event e) calls
unfolding apply_all apply remove_all new_emitter lookup
listeners_of-apply_all event [] e = refl
listeners_of-apply_all event (adds name fn ∷ calls) e =
    listeners_of-apply_all event calls (on name fn e)
    ∙ ap (λ l. registered event l calls) (listeners_of-on event name fn e)
listeners_of-apply_all event (removes name fn ∷ calls) e =
    listeners_of-apply_all event calls (off name fn e)
    ∙ ap (λ d. registered event (listeners_of event d) calls) (off_lem name fn e)
listeners_of-apply_all event (clears ∷ calls) e = listeners_of-apply_all event calls new_emitter

-- A payload reaches exactly the listeners that were added for its event since the last `RemoveAll`,
-- each as often as it was added and in that order, whatever they do to the emitter meanwhile: no
-- call of `Off` takes one away.
emit-apply_all :
    {W T : Type 0} (emitter : W → Emitter) (run : ℕ → T → W → W) (calls : List Call) (event : Text)
    (payload : T) (w : W)
    → emitter w ≡ apply_all calls new_emitter
    → emit emitter run event payload w ≡ run_all emitter run (registered event [] calls) payload w
unfolding emit new_emitter lookup
emit-apply_all emitter run calls event payload w h =
    ap (λ l. run_all emitter run l payload w)
      (ap (listeners_of event) h ∙ listeners_of-apply_all event calls new_emitter)
