-- ===== src/State/Operation.antt =====
-- Idempotent operations of state.py: `StateOperation`, `void_operation`, and the receipts
-- (`_read_operation`, `_write_operation`). A receipt is stored under its request identifier, whose
-- SHA-256 is the file's name. Messages leave out paths and hints.
use shuttle_gate.Base.{
  String, ◌<>◌, ℕ, ◌≡◌, Bool, true, false, not, ◌||◌, Option, none, some, List, [], ◌∷◌, ltb, ◌==◌,
  ◌!=◌, nat_eq, string_eq, option_eq, if◌then◌else◌, matches, is_alnum, is_lower, is_digit, codes,
  arith, ne_self, eq_self,
}
use shuttle_gate.Errors.{Error, state_error, Result, ok, err, ◌>>=◌, ◌>>◌, raise_if}

-- OPERATION_ID_PATTERN: [A-Za-z0-9][A-Za-z0-9._:-]{0,127}
unfoldable pub is_operation_id : String → Bool
unfolding matches nat_eq
is_operation_id s =
    matches is_alnum (λ c. is_alnum c || c == b'.' || c == b'_' || c == b':' || c == b'-') 127
      (codes s)

-- OPERATION_KIND_PATTERN: [a-z][a-z0-9.-]{0,127}
unfoldable pub is_operation_kind : String → Bool
unfolding matches nat_eq
is_operation_kind s =
    matches is_lower (λ c. is_lower c || is_digit c || c == b'.' || c == b'-') 127 (codes s)

unfoldable pub check_operation : String → String → Result (Unit {0})
unfolding is_operation_id is_operation_kind
check_operation id kind = do
  raise_if (not (is_operation_id id))
      (state_error "operation ID must be 1-128 safe ASCII characters")
  raise_if (not (is_operation_kind kind)) (state_error "operation kind is invalid")

-- `value.get(key)` of a JSON object: None, a value that is no text, or a text.
pub data Field : Type 0 where
  missing : Field
  other : Field
  text : String → Field

-- JSON data: null, or any other value by its text.
pub data Json : Type 0 where
  null : Json
  value_text : String → Json

pub record RawOperation : Type 0 where
  pub schema_version : Option ℕ
  pub request_id : Field
  pub kind : Field
  pub result : Option Json

-- `parsed` is `none` where the file cannot be read as JSON. JSON that is no object has no fields.
pub record OperationFile : Type 0 where
  pub regular : Bool
  pub size : ℕ
  pub parsed : Option RawOperation

abbrev pub Operations : Type 0
Operations = List (String × OperationFile)

pub record StateOperation (T : Type 0) : Type 0 where
  pub request_id : String
  pub kind : String
  pub encode : T → Json
  pub decode : Json → Result T

abbrev pub max_manifest_bytes : ℕ
max_manifest_bytes = 65536

abbrev pub operation_schema_version : ℕ
operation_schema_version = 1

abbrev encode_void : Unit {0} → Json
encode_void u = null

abbrev decode_void : Json → Result (Unit {0})
decode_void null = ok tt
decode_void (value_text s) = err (state_error "completed operation has an invalid result")

unfoldable pub void_operation : String → String → Result (StateOperation (Unit {0}))
unfolding check_operation
void_operation request_id kind = do
  check_operation request_id kind
  ok (record { request_id = request_id; kind = kind; encode = encode_void; decode = decode_void })

unfoldable pub find_operation : String → Operations → Option OperationFile
find_operation id [] = none
find_operation id (entry ∷ rest) =
    let later = find_operation id rest in if entry.0 == id then some entry.1 else later

abbrev is_text : Field → String → Bool
is_text (text s) t = s == t
is_text field t = false

abbrev has_result : Option Json → Bool
has_result none = false
has_result (some v) = true

module _ {T : Type 0} (o : StateOperation T) where
  abbrev used : Error
  used = state_error ("operation ID was already used for another request: " <> o.request_id)

  abbrev decoded : Option Json → Result (Option T)
  decoded none = err used
  decoded (some v) = do t ← o.decode v; ok (some t)

  unfoldable pub read_parsed : RawOperation → Result (Option T)
  read_parsed raw = do
    raise_if
        (raw.schema_version != some operation_schema_version
          || not (is_text raw.request_id o.request_id)
          || not (is_text raw.kind o.kind))
        used
    decoded raw.result

  unfoldable pub read_file : Option OperationFile → Result (Option T)
  read_file none = ok none
  read_file (some f) = do
    raise_if (not f.regular || ltb max_manifest_bytes f.size)
        (state_error "invalid operation receipt")
    elim f.parsed [
      | none ↦ err (state_error "cannot read operation receipt")
      | some raw ↦ read_parsed raw
    ]

  -- `_read_operation`: the recorded result, if there is one.
  unfoldable pub read_operation : Operations → Result (Option T)
  read_operation operations = read_file (find_operation o.request_id operations)

  -- The receipt that `_write_operation` leaves. `size` is the length of its text.
  unfoldable pub receipt_file : ℕ → T → OperationFile
  receipt_file size t = record {
    regular = true;
    size = size;
    parsed = some (record {
      schema_version = some operation_schema_version;
      request_id = text o.request_id;
      kind = text o.kind;
      result = some (o.encode t);
    });
  }

  unfoldable pub write_operation : ℕ → T → Operations → Operations
  write_operation size t operations = (o.request_id, receipt_file size t) ∷ operations

  -- A result that was recorded is read back, if its text is within the size limit and the
  -- operation decodes what it encodes.
  pub read_operation-write_operation :
      (size : ℕ) (t : T) (operations : Operations)
      → ltb max_manifest_bytes size ≡ false
      → o.decode (o.encode t) ≡ ok t
      → read_operation (write_operation size t operations) ≡ ok (some t)
  unfolding read_operation write_operation find_operation read_file read_parsed receipt_file
  read_operation-write_operation size t operations fits e =
      ground (arith, eq_self o.request_id, eq_self o.kind, ne_self (some operation_schema_version))
