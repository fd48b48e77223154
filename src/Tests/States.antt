-- ===== src/Tests/States.antt =====
-- A state directory whose data directories hold numbers, and an identified increment.
use shuttle_gate.Base.{
  String, ℕ, ◌+◌, ◌≡◌, refl, Bool, true, false, Option, none, some, [], ◌∷◌, string_eq, nat_eq,
  matches_hex, option_eq,
}
use shuttle_gate.Errors.{Result, ok}
use shuttle_gate.Durable.{done, crashed}
use shuttle_gate.Durable.Triple.{Lands}
use shuttle_gate.State.{
  Generation, link, absent, StateDisk, is_generation_name, pointer_to, read_manifest,
  find_generation, active_generation, linked_generation,
}
use shuttle_gate.State.Operation.{
  Json, null, value_text, StateOperation, read_operation, read_file, find_operation, read_parsed,
  write_operation, receipt_file, read_operation-write_operation,
}
use shuttle_gate.State.Copy.{mutate_staged, validate_staged, active_tree}
use shuttle_gate.State.View.{IsView}
use shuttle_gate.State.Mutate.{Mutation, manifest_file, mutate_state}
use shuttle_gate.State.Mutate.Spec.{content, transact}
use shuttle_gate.State.Mutate.Stage.{Answers, Raises, Stops}
use shuttle_gate.State.Mutate.Refines.{mutate_state-transact}
use shuttle_gate.State.Mutate.Retry.{IsReady, Attempts, no_attempt, attempted}
use shuttle_gate.State.Mutate.Once.{IsOnce, mutate_state-IsOnce}

abbrev name_a : String
name_a = "gen-aaaaaaaaaaaaaaaaaaaaaaaaaaaaaaaa"

abbrev name_b : String
name_b = "gen-bbbbbbbbbbbbbbbbbbbbbbbbbbbbbbbb"

abbrev name_c : String
name_c = "gen-cccccccccccccccccccccccccccccccc"

abbrev decode_flag : Json → Result Bool
decode_flag null = ok false
decode_flag (value_text s) = ok true

abbrev encode_flag : Bool → Json
encode_flag true = value_text "true"
encode_flag false = null

abbrev rotation : StateOperation Bool
rotation = record {
  request_id = "request-1";
  kind = "peer.rotate";
  encode = encode_flag;
  decode = decode_flag;
}

abbrev next_peer : Option ℕ → Option ℕ
next_peer none = some 1
next_peer (some n) = some (n + 1)

abbrev increment : Mutation ℕ ℕ Bool
increment = record {
  mutator = λ tree. ok (true, record tree { peers = next_peer tree.peers });
  validator = λ tree. ok tt;
  publish_if = none;
  operation = some rotation;
}

abbrev first_generation : Generation ℕ ℕ
first_generation = record {
  directory = true;
  tree = record { server = some 7; peers = some 1 };
  operations = [];
  manifest = some (manifest_file name_a 82);
}

abbrev directory : StateDisk ℕ ℕ
directory = record {
  generations = (name_a, first_generation) ∷ [];
  staging = first_generation ∷ [];
  stray_generation = false;
  current = link (pointer_to name_a);
  temporaries = pointer_to name_b ∷ [];
  stray_current = false;
  legacies = record { server = absent; peers = absent };
}

viewed : IsView (some (name_a, first_generation)) directory
unfolding is_generation_name matches_hex find_generation string_eq nat_eq read_manifest
viewed = (refl, refl, refl, refl, refl)

-- The crash comes when the new generation is active and the old one is not removed.
abbrev crashed_directory : StateDisk ℕ ℕ
crashed_directory = (mutate_state increment name_b 90 82 directory 10).state

directory-IsReady : IsReady name_b 82 directory
unfolding mutate_state is_generation_name matches_hex find_generation string_eq nat_eq read_manifest
    active_generation linked_generation read_operation read_file find_operation mutate_staged
    validate_staged read_parsed active_tree write_operation receipt_file option_eq
directory-IsReady = record {
  expected = (tt, tt);
  known_generations = refl;
  known_links = refl;
  named = refl;
  fresh = refl;
  small = refl;
}

crashed_directory-IsReady : IsReady name_c 82 crashed_directory
unfolding mutate_state is_generation_name matches_hex find_generation string_eq nat_eq read_manifest
    active_generation linked_generation read_operation read_file find_operation mutate_staged
    validate_staged read_parsed active_tree write_operation receipt_file option_eq
crashed_directory-IsReady = record {
  expected = (tt, tt);
  known_generations = refl;
  known_links = refl;
  named = refl;
  fresh = refl;
  small = refl;
}

cut_off : (mutate_state increment name_b 90 82 directory 10).outcome ≡ crashed
unfolding mutate_state is_generation_name matches_hex find_generation string_eq nat_eq read_manifest
    active_generation linked_generation read_operation read_file find_operation mutate_staged
    validate_staged read_parsed active_tree write_operation receipt_file option_eq
cut_off = refl

one_attempt : Attempts increment 90 directory crashed_directory
one_attempt = attempted no_attempt name_b 82 10 directory-IsReady cut_off refl

repeated : (mutate_state increment name_c 90 82 crashed_directory 9).outcome ≡ done true
unfolding mutate_state is_generation_name matches_hex find_generation string_eq nat_eq read_manifest
    active_generation linked_generation read_operation read_file find_operation mutate_staged
    validate_staged read_parsed active_tree write_operation receipt_file option_eq
repeated = refl

decodes : (t : Bool) → rotation.decode (rotation.encode t) ≡ ok t
decodes true = refl
decodes false = refl

mutate_state-IsOnce_example :
    IsOnce increment rotation 90 refl refl decodes
      (first_generation.tree, first_generation.operations)
      directory.legacies
      true
      (mutate_state increment name_c 90 82 crashed_directory 9).state
mutate_state-IsOnce_example =
    mutate_state-IsOnce increment rotation 90 refl refl decodes name_a first_generation directory
      crashed_directory name_c 82 9 true viewed one_attempt crashed_directory-IsReady repeated

mutate_state-transact_example :
    Lands
      (Answers
        (some (name_a, first_generation))
        name_b
        82
        (transact increment 90 (content (some (name_a, first_generation))) directory.legacies))
      (Raises
        (some (name_a, first_generation))
        (transact increment 90 (content (some (name_a, first_generation))) directory.legacies))
      (Stops
        (some (name_a, first_generation))
        name_b
        82
        (transact increment 90 (content (some (name_a, first_generation))) directory.legacies))
      16
      7
      (mutate_state increment name_b 90 82 directory 7)
mutate_state-transact_example =
    mutate_state-transact increment name_b 90 82 (some (name_a, first_generation)) directory 7
      viewed (tt, tt) refl refl directory-IsReady.named directory-IsReady.fresh refl

read_operation-write_operation_example :
    read_operation rotation (write_operation rotation 90 true []) ≡ ok (some true)
read_operation-write_operation_example =
    read_operation-write_operation rotation 90 true [] refl refl
