-- ===== src/SshKey/Journal.antt =====
-- The transaction journal of keys.py: `_read_ssh_transaction` and what `_new_ssh_transaction`
-- writes.
use shuttle_gate.State.Operation.{check_operation, Field, missing, other, text}
use shuttle_gate.Base.{
  String, ◌<>◌, ℕ, ◌≡◌, refl, Bool, true, false, not, ◌||◌, Option, none, some, ltb, ◌!=◌, nat_eq,
  string_eq, option_eq, if◌then◌else◌, matches_hex, arith, ne_self,
}
use shuttle_gate.Errors.{Error, state_error, Result, ok, err, ◌>>=◌, ◌>>◌, raise_if}

pub record RawJournal : Type 0 where
  pub schema_version : Option ℕ
  pub transaction : Field
  pub operation_id : Field
  pub operation_kind : Field
  pub private_old_digest : Field
  pub public_old_digest : Field
  pub private_new_digest : Field
  pub public_new_digest : Field

-- `parsed` is `none` where the file cannot be read as a JSON object.
pub record JournalFile : Type 0 where
  pub regular : Bool
  pub size : ℕ
  pub parsed : Option RawJournal

pub record Journal : Type 0 where
  pub transaction : String
  pub operation_id : String
  pub operation_kind : String
  pub private_old : Option String
  pub public_old : Option String
  pub private_new : String
  pub public_new : String

abbrev pub ssh_transaction_schema_version : ℕ
ssh_transaction_schema_version = 1

abbrev pub max_ssh_transaction_bytes : ℕ
max_ssh_transaction_bytes = 65536

abbrev invalid : String → Error
invalid what = state_error ("invalid SSH key transaction " <> what)

unfoldable pub require_text : Field → String → Result String
require_text (text s) what = ok s
require_text _ what = err (invalid what)

-- A digest that is None or 64 hexadecimal digits.
unfoldable pub read_digest : Field → Result (Option String)
read_digest missing = ok none
read_digest other = err (invalid "digest")
read_digest (text s) = if matches_hex "" 64 "" s then ok (some s) else err (invalid "digest")

unfoldable pub require_digest : Option String → Result String
require_digest none = err (state_error "incomplete SSH key transaction journal")
require_digest (some d) = ok d

unfoldable pub read_raw : RawJournal → Result Journal
unfolding require_text require_digest
read_raw raw = do
  raise_if (raw.schema_version != some ssh_transaction_schema_version) (invalid "journal")
  transaction ← require_text raw.transaction "identifier"
  raise_if (not (matches_hex "" 32 "" transaction)) (invalid "identifier")
  operation_id ← require_text raw.operation_id "operation"
  operation_kind ← require_text raw.operation_kind "operation"
  check_operation operation_id operation_kind
  private_old ← read_digest raw.private_old_digest
  public_old ← read_digest raw.public_old_digest
  private_new ← read_digest raw.private_new_digest
  public_new ← read_digest raw.public_new_digest
  private_new' ← require_digest private_new
  public_new' ← require_digest public_new
  ok (record {
    transaction = transaction;
    operation_id = operation_id;
    operation_kind = operation_kind;
    private_old = private_old;
    public_old = public_old;
    private_new = private_new';
    public_new = public_new';
  })

-- `_read_ssh_transaction`: `none` where there is no journal.
unfoldable pub read_transaction : Option JournalFile → Result (Option Journal)
read_transaction none = ok none
read_transaction (some f) = do
  raise_if (not f.regular || ltb max_ssh_transaction_bytes f.size) (invalid "journal")
  elim f.parsed [
    | none ↦ err (state_error "cannot read SSH key transaction journal")
    | some raw ↦ do journal ← read_raw raw; ok (some journal)
  ]

abbrev optional_text : Option String → Field
optional_text none = missing
optional_text (some s) = text s

-- The journal as a JSON object.
unfoldable pub raw_of : Journal → RawJournal
raw_of j = record {
  schema_version = some ssh_transaction_schema_version;
  transaction = text j.transaction;
  operation_id = text j.operation_id;
  operation_kind = text j.operation_kind;
  private_old_digest = optional_text j.private_old;
  public_old_digest = optional_text j.public_old;
  private_new_digest = text j.private_new;
  public_new_digest = text j.public_new;
}

-- The file that `atomic_write_json` leaves. `size` is the length of its text.
unfoldable pub journal_file : ℕ → Journal → JournalFile
unfolding raw_of
journal_file size j = record { regular = true; size = size; parsed = some (raw_of j) }

abbrev is_optional_digest : Option String → Bool
is_optional_digest none = true
is_optional_digest (some d) = matches_hex "" 64 "" d

-- A journal that the program can have written.
pub record IsJournal (j : Journal) : Type 0 where
  pub transaction : matches_hex "" 32 "" j.transaction ≡ true
  pub operation : check_operation j.operation_id j.operation_kind ≡ ok tt
  pub private_old : is_optional_digest j.private_old ≡ true
  pub public_old : is_optional_digest j.public_old ≡ true
  pub private_new : matches_hex "" 64 "" j.private_new ≡ true
  pub public_new : matches_hex "" 64 "" j.public_new ≡ true

read_digest-optional_text :
    (d : Option String) → is_optional_digest d ≡ true → read_digest (optional_text d) ≡ ok d
unfolding read_digest
read_digest-optional_text none h = refl
read_digest-optional_text (some d) h = rw h

read_digest-text : (d : String) → matches_hex "" 64 "" d ≡ true → read_digest (text d) ≡ ok (some d)
unfolding read_digest
read_digest-text d h = rw h

read_raw-raw_of : (j : Journal) → IsJournal j → read_raw (raw_of j) ≡ ok j
unfolding read_raw raw_of
read_raw-raw_of j h = ground (
  arith,
  ne_self (some ssh_transaction_schema_version),
  read_digest-optional_text j.private_old h.private_old,
  read_digest-optional_text j.public_old h.public_old,
  read_digest-text j.private_new h.private_new,
  read_digest-text j.public_new h.public_new,
)

-- A journal that the program can have written is read back, if its text is within the size limit.
pub read_transaction-journal_file :
    (j : Journal) (size : ℕ)
    → IsJournal j
    → ltb max_ssh_transaction_bytes size ≡ false
    → read_transaction (some (journal_file size j)) ≡ ok (some j)
unfolding read_transaction journal_file
read_transaction-journal_file j size h fits = rw (fits, read_raw-raw_of j h)
