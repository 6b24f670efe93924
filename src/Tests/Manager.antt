-- ===== src/Tests/Manager.antt =====
-- Inputs for the theorems about `SocketManager` of channel/socket.go.
use qpub_go.Prelude.{some, [], ◌∷◌, ◌≡◌, refl, get_elem?}
use qpub_go.Prelude.Text.{Text, codes, same}
use qpub_go.Prelude.Dict.{lookup}
use qpub_go.Channel.Types.{SocketChannel}
use qpub_go.Channel.Calls.{new_socket_channel}
use qpub_go.Manager.Ops.{SocketManager, done, release}
use qpub_go.Manager.Counts.{pointer_of, release_last_lem}

abbrev room : Text
room = codes "room"

abbrev used : SocketChannel
used = record (new_socket_channel room) { catch_all_handler = some (record { code = 1; env = 0 }) }

-- One name with one holder.
abbrev one_holder : SocketManager
one_holder = record { heap = used ∷ []; channels = (room, 0) ∷ []; ref_counts = (room, 1) ∷ [] }

release_last_lem_example :
    (m : SocketManager) × (release room one_holder ≡ done tt m)
    × (pointer_of room m ≡ some 0)
    × (lookup room m.ref_counts ≡ some 0)
    × (get_elem? m.heap 0 ≡ some used)
unfolding lookup same new_socket_channel
release_last_lem_example = release_last_lem room 0 used one_holder refl refl refl refl
