-- ===== src/Examples/Starts.antt =====
-- Theorems on the start and the end of the servers, at concrete inputs.
use file_storage.Text.Trim.{is_space}
use file_storage.Commands.Peers.{
  parse_peers-join_commas, without, join_commas, parse_peers, is_comma,
}
use file_storage.Commands.Shutdown.{signal_lost, Steps-IsSignalled, running, IsSignalled}
use file_storage.Base.{false, [], ◌∷◌, ◌≡◌, refl}

parse_peers-join_commas_example :
    parse_peers "b:1" (join_commas ("a:1" ∷ "b:1" ∷ "c:1" ∷ []))
    ≡ without "b:1" ("a:1" ∷ "b:1" ∷ "c:1" ∷ [])
unfolding is_comma is_space
parse_peers-join_commas_example =
    parse_peers-join_commas "b:1" ("a:1" ∷ "b:1" ∷ "c:1" ∷ [])
      (refl, refl, refl, (refl, refl, refl, (refl, refl, refl, tt)))

Steps-IsSignalled_example : IsSignalled (running false false 1)
Steps-IsSignalled_example = Steps-IsSignalled (running false false 1) signal_lost
