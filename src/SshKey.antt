-- ===== src/SshKey.antt =====
-- The dedicated SSH key of keys.py: a crash-safe replacement of a key pair, journalled beside it.
pub mod Install
pub mod Journal
pub mod Receipt
pub mod Setup
pub mod Transaction
use shuttle_gate.Base.{
  ◌≡◌, String, ◌<>◌, ℕ, Bool, true, false, not, ◌&&◌, ◌||◌, Option, none, some, List, ltb, leb,
  ◌==◌, string_eq, nat_eq, if◌then◌else◌,
}
use shuttle_gate.Errors.{Error, state_error, Result, ok, err}

-- What stands at a path: whether it is a regular file or a directory, its size, content and
-- permissions.
pub record StoredFile : Type 0 where
  pub regular : Bool
  pub directory : Bool
  pub size : ℕ
  pub content : String
  pub mode : ℕ

-- The three paths of one key file: where it is used, where a new one is staged, and where the
-- old one is kept.
pub record Slots : Type 0 where
  pub destination : Option StoredFile
  pub stage : Option StoredFile
  pub backup : Option StoredFile

abbrev pub max_ssh_key_bytes : ℕ
max_ssh_key_bytes = 65536

abbrev pub is_bounded : StoredFile → Bool
is_bounded f = f.regular && ltb 0 f.size && leb f.size max_ssh_key_bytes

module _ (sha256 : String → String) where
  unfoldable pub file_digest : StoredFile → String → Result String
  unfolding nat_eq
  file_digest f label =
      if is_bounded f
      then ok (sha256 f.content)
      else err (state_error (label <> " has an invalid size"))

  unfoldable pub optional_digest : Option StoredFile → String → Result (Option String)
  unfolding file_digest
  optional_digest none label = ok none
  optional_digest (some f) label = elim (file_digest f label) [ ok d ↦ ok (some d) | err e ↦ err e ]

  abbrev same_digest : Result String → String → Result Bool
  same_digest (ok d) e = ok (d == e)
  same_digest (err x) e = err x

  unfoldable pub matches_digest : Option StoredFile → Option String → String → Result Bool
  unfolding file_digest
  matches_digest f none label = ok false
  matches_digest none (some e) label = ok false
  matches_digest (some f) (some e) label = same_digest (file_digest f label) e

  -- The file is there, can be read, and has the digest.
  abbrev pub Holds : String → Option StoredFile → Type 0
  Holds d none = ⊥
  Holds d (some f) = (is_bounded f ≡ true) × (sha256 f.content ≡ d)
