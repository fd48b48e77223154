-- ===== src/SshKey/Receipt.antt =====
-- `_ssh_operation_completed` and what `_record_ssh_operation` writes, of keys.py
use shuttle_gate.Base.{
  String, ◌<>◌, ℕ, ◌≡◌, Bool, true, false, not, ◌||◌, Option, none, some, List, [], ◌∷◌, ltb, ◌==◌,
  ◌!=◌, nat_eq, string_eq, option_eq, if◌then◌else◌, arith, ne_self,
}
use shuttle_gate.Errors.{state_error, Result, ok, err, ◌>>=◌, ◌>>◌, raise_if}
use shuttle_gate.SshKey.{StoredFile, matches_digest, Holds}
use shuttle_gate.State.Operation.{Field, text}
use shuttle_gate.SshKey.Journal.{Journal, ssh_transaction_schema_version, max_ssh_transaction_bytes}

pub record RawReceipt : Type 0 where
  pub schema_version : Option ℕ
  pub operation_id : Field
  pub operation_kind : Field
  pub identity : Field
  pub private_digest : Field
  pub public_digest : Field

-- `parsed` is `none` where the file cannot be read as JSON, or is no object.
pub record ReceiptFile : Type 0 where
  pub regular : Bool
  pub size : ℕ
  pub parsed : Option RawReceipt

-- The receipts below state/operations, by operation identifier. (Their names are its SHA-256.)
abbrev pub Receipts : Type 0
Receipts = List (String × ReceiptFile)

unfoldable pub lookup_receipt : String → Receipts → Option ReceiptFile
lookup_receipt id [] = none
lookup_receipt id ((other_id, f) ∷ receipts) =
    if other_id == id then some f else lookup_receipt id receipts

unfoldable pub is_text : Field → String → Bool
is_text (text s) t = s == t
is_text _ t = false

unfoldable pub require_both : Field → Field → Result (String × String)
require_both (text a) (text b) = ok (a, b)
require_both _ _ = err (state_error "invalid SSH operation receipt")

-- `identity` is the path below the instance, `none` where it is outside.
module _ (sha256 : String → String) (identity : Option String) where
  require_inside : Option String → Result String
  require_inside none = err (state_error "SSH identity is outside the instance")
  require_inside (some path) = ok path

  -- `A and B`, where B may raise and is left out if A fails
  both_match : Result Bool → Result Bool → Result Bool
  both_match (ok true) second = second
  both_match first second = first

  -- Both key files have the digests.
  unfoldable pub pair_matches :
      Option StoredFile → Option StoredFile → Option String → Option String → String → Result Bool
  unfolding both_match
  pair_matches private public private_digest public_digest label =
      both_match (matches_digest sha256 private private_digest (label <> " SSH private key"))
        (matches_digest sha256 public public_digest (label <> " SSH public key"))

  unfoldable pub check_receipt :
      RawReceipt → Option StoredFile → Option StoredFile → String → String → String → Result Bool
  unfolding pair_matches is_text require_both
  check_receipt raw private public path id kind = do
    raise_if
        (raw.schema_version != some ssh_transaction_schema_version
          || not (is_text raw.operation_id id)
          || not (is_text raw.operation_kind kind)
          || not (is_text raw.identity path))
        (state_error ("operation ID was already used for another request: " <> id))
    (private_digest, public_digest) ← require_both raw.private_digest raw.public_digest
    same ← pair_matches private public (some private_digest) (some public_digest) "recorded"
    raise_if (not same) (state_error ("completed SSH operation was superseded or changed: " <> id))
    ok true

  unfoldable pub operation_completed :
      Receipts → Option StoredFile → Option StoredFile → String → String → Result Bool
  unfolding require_inside check_receipt
  operation_completed receipts private public id kind = elim (lookup_receipt id receipts) [
    | none ↦ ok false
    | some f ↦ do
      raise_if (not f.regular || ltb max_ssh_transaction_bytes f.size)
          (state_error "invalid SSH operation receipt")
      elim f.parsed [
        | none ↦ err (state_error "cannot read SSH operation receipt")
        | some raw ↦ do
          path ← require_inside identity
          check_receipt raw private public path id kind
      ]
  ]

-- The receipt of a finished transaction.
unfoldable pub receipt_of : String → ℕ → Journal → ReceiptFile
receipt_of path size j = record {
  regular = true;
  size = size;
  parsed = some (record {
    schema_version = some ssh_transaction_schema_version;
    operation_id = text j.operation_id;
    operation_kind = text j.operation_kind;
    identity = text path;
    private_digest = text j.private_new;
    public_digest = text j.public_new;
  });
}

module _ (sha256 : String → String) (path : String) where
  pub matches_Holds :
      (f : Option StoredFile) (d : String) (label : String)
      → Holds sha256 d f
      → matches_digest sha256 f (some d) label ≡ ok true
  unfolding matches_digest
  matches_Holds none d label h = absurd h
  matches_Holds (some f) d label h = ground arith

  -- If the receipt of a transaction is recorded and within the size limit, and both new key files are
  -- in place, the operation counts as completed.
  pub operation_completed-receipt_of :
      (receipts : Receipts) (private public : Option StoredFile) (size : ℕ) (j : Journal)
      → lookup_receipt j.operation_id receipts ≡ some (receipt_of path size j)
      → ltb max_ssh_transaction_bytes size ≡ false
      → Holds sha256 j.private_new private
      → Holds sha256 j.public_new public
      → operation_completed sha256
          (some path)
          receipts
          private
          public
          j.operation_id
          j.operation_kind
        ≡ ok true
  unfolding operation_completed receipt_of
  operation_completed-receipt_of receipts private public size j found fits h k = ground (
    arith,
    ne_self (some ssh_transaction_schema_version),
    matches_Holds private j.private_new "recorded SSH private key" h,
    matches_Holds public j.public_new "recorded SSH public key" k,
  )
