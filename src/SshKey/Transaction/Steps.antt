-- ===== src/SshKey/Transaction/Steps.antt =====
-- The steps that follow the journal: what each needs, leaves, and leaves to a crash.
use shuttle_gate.Base.{
  String, ◌<>◌, ℕ, ◌≤◌, ◌≡◌, true, false, Option, none, some, ◌⊎◌, inl, inr, arith, ◌∷◌, ltb, All,
  length, eq_self,
}
use shuttle_gate.Errors.{ok}
use shuttle_gate.Durable.{write, zoom}
use shuttle_gate.Durable.Costs.{
  Costs, Costs-pure, Costs-write, Costs-reads, Costs-seq, Costs-zoom, Costs-or, Costs-weaken,
}
use shuttle_gate.SshKey.{StoredFile, Holds}
use shuttle_gate.SshKey.Install.{install}
use shuttle_gate.SshKey.Install.Resume.{IsResumable, install_resumes}
use shuttle_gate.SshKey.Journal.{Journal, read_transaction, max_ssh_transaction_bytes}
use shuttle_gate.SshKey.Receipt.{
  lookup_receipt, operation_completed, operation_completed-receipt_of, receipt_of, pair_matches,
  matches_Holds,
}
use shuttle_gate.SshKey.Transaction.{
  KeyDisk, finish, record_operation, put_public, put_identity, chmod_destination, chmod,
}

-- No unlink of the clean-up meets a directory, and it has `limit` orphans at most to remove.
abbrev pub IsTidyFile : Option StoredFile → Type 0
IsTidyFile none = Unit
IsTidyFile (some f) = f.directory ≡ false

abbrev pub IsTidy : ℕ → KeyDisk → Type 0
IsTidy limit d =
    IsTidyFile d.generated × All (λ f. f.directory ≡ false) d.orphans × (length d.orphans ≤ limit)

module _ (sha256 : String → String) (path : String) (size : ℕ) (j : Journal) (limit : ℕ) where
  -- A crash left the journal, and both key files in a state that is resumable.
  pub record IsInterrupted (d : KeyDisk) : Type 0 where
    pub journalled : read_transaction d.journal ≡ ok (some j)
    pub public : IsResumable sha256 j.public_old j.public_new d.public
    pub identity : IsResumable sha256 j.private_old j.private_new d.identity
    pub recorded :
        (lookup_receipt j.operation_id d.receipts ≡ none)
        ⊎ (lookup_receipt j.operation_id d.receipts ≡ some (receipt_of path size j))
    pub tidy : IsTidy limit d

  -- The new public key is in place.
  pub record IsHalfway (d : KeyDisk) : Type 0 where
    pub interrupted : IsInterrupted d
    pub public : Holds sha256 j.public_new d.public.destination

  -- Both new files are in place.
  pub record IsPlaced (d : KeyDisk) : Type 0 where
    pub interrupted : IsInterrupted d
    pub public : Holds sha256 j.public_new d.public.destination
    pub identity : Holds sha256 j.private_new d.identity.destination

  -- The replacement is recorded too.
  pub record IsRecorded (d : KeyDisk) : Type 0 where
    pub placed : IsPlaced d
    pub recorded : lookup_receipt j.operation_id d.receipts ≡ some (receipt_of path size j)

  install-Costs :
      (old : Option String) (new label : String)
      → Costs
          (IsResumable sha256 old new)
          (λ s. Holds sha256 new s.destination)
          (IsResumable sha256 old new)
          2
          (install sha256 old (some new) label)
  install-Costs old new label = record { runs = install_resumes sha256 old new label }

  pub install_public : Costs IsInterrupted IsHalfway IsInterrupted 2 (
      zoom
        (λ d. d.public)
        put_public
        (install sha256 j.public_old (some j.public_new) "SSH public key"))
  install_public =
      Costs-zoom (λ d. d.public) put_public _ _ _
        (install-Costs j.public_old j.public_new "SSH public key") (λ d h. h.public)
        (λ d t h k. record {
          interrupted = record {
            journalled = h.journalled;
            public = inl k;
            identity = h.identity;
            recorded = h.recorded;
            tidy = h.tidy;
          };
          public = k;
        })
        (λ d t h k. record {
          journalled = h.journalled;
          public = k;
          identity = h.identity;
          recorded = h.recorded;
          tidy = h.tidy;
        })

  pub install_identity : Costs IsHalfway IsPlaced IsInterrupted 2 (
      zoom
        (λ d. d.identity)
        put_identity
        (install sha256 j.private_old (some j.private_new) "SSH private key"))
  install_identity =
      Costs-zoom (λ d. d.identity) put_identity _ _ _
        (install-Costs j.private_old j.private_new "SSH private key")
        (λ d h. h.interrupted.identity)
        (λ d t h k.
          let i = h.interrupted in
          record {
            interrupted = record {
              journalled = i.journalled;
              public = i.public;
              identity = inl k;
              recorded = i.recorded;
              tidy = i.tidy;
            };
            public = h.public;
            identity = k;
          })
        (λ d t h k.
          let i = h.interrupted in
          record {
            journalled = i.journalled;
            public = i.public;
            identity = k;
            recorded = i.recorded;
            tidy = i.tidy;
          })

  pair_matches_lem :
      (d : KeyDisk) (label : String)
      → IsPlaced d
      → pair_matches sha256 none d.identity.destination d.public.destination
          (some j.private_new)
          (some j.public_new)
          label
        ≡ ok true
  unfolding pair_matches
  pair_matches_lem d label h = ground (
    arith,
    matches_Holds sha256 path d.identity.destination j.private_new (label <> " SSH private key")
        h.identity,
    matches_Holds sha256 path d.public.destination j.public_new (label <> " SSH public key")
        h.public,
  )

  Holds-chmod :
      (mode : ℕ) (new : String) (f : Option StoredFile)
      → Holds sha256 new f
      → Holds sha256 new (chmod mode f)
  Holds-chmod mode new none h = h
  Holds-chmod mode new (some f) h = h

  chmod_identity :
      Costs IsPlaced IsPlaced IsInterrupted 1
        (write (λ d. record d { identity = chmod_destination 0o600 d.identity }))
  chmod_identity =
      Costs-write _ (λ d h. h.interrupted)
        λ d h.
          let i = h.interrupted in
          let k = Holds-chmod 0o600 j.private_new d.identity.destination h.identity in
          record {
            interrupted = record {
              journalled = i.journalled;
              public = i.public;
              identity = inl k;
              recorded = i.recorded;
              tidy = i.tidy;
            };
            public = h.public;
            identity = k;
          }

  chmod_public :
      Costs IsPlaced IsPlaced IsInterrupted 1
        (write (λ d. record d { public = chmod_destination 0o644 d.public }))
  chmod_public =
      Costs-write _ (λ d h. h.interrupted)
        λ d h.
          let i = h.interrupted in
          let k = Holds-chmod 0o644 j.public_new d.public.destination h.public in
          record {
            interrupted = record {
              journalled = i.journalled;
              public = inl k;
              identity = i.identity;
              recorded = i.recorded;
              tidy = i.tidy;
            };
            public = k;
            identity = h.identity;
          }

  pub finish-Costs : Costs IsInterrupted IsPlaced IsInterrupted 6 (finish sha256 j)
  unfolding finish
  finish-Costs = Costs-seq install_public (
      Costs-seq install_identity (
        Costs-reads _ true _ (λ d h. pair_matches_lem d "new" h)
          (Costs-seq chmod_identity chmod_public)))

  lookup-head :
      (d : KeyDisk)
      → lookup_receipt j.operation_id ((j.operation_id, receipt_of path size j) ∷ d.receipts)
        ≡ some (receipt_of path size j)
  unfolding lookup_receipt
  lookup-head d = rw (eq_self j.operation_id)

  -- The parts of a recorded state, which the unlinks leave alone.
  pub IsRecorded-of :
      (d : KeyDisk)
      → read_transaction d.journal ≡ ok (some j)
      → Holds sha256 j.public_new d.public.destination
      → Holds sha256 j.private_new d.identity.destination
      → lookup_receipt j.operation_id d.receipts ≡ some (receipt_of path size j)
      → IsTidy limit d
      → IsRecorded d
  IsRecorded-of d journalled public identity recorded tidy = record {
    placed = record {
      interrupted = record {
        journalled = journalled;
        public = inl public;
        identity = inl identity;
        recorded = inr recorded;
        tidy = tidy;
      };
      public = public;
      identity = identity;
    };
    recorded = recorded;
  }

  module _ (fits : ltb max_ssh_transaction_bytes size ≡ false) where
    completed_if_recorded :
        (d : KeyDisk)
        → IsPlaced d
        → lookup_receipt j.operation_id d.receipts ≡ some (receipt_of path size j)
        → operation_completed sha256
            (some path)
            d.receipts
            d.identity.destination
            d.public.destination
            j.operation_id
            j.operation_kind
          ≡ ok true
    completed_if_recorded d h found =
        operation_completed-receipt_of sha256 path d.receipts d.identity.destination
          d.public.destination size j found fits h.identity h.public

    not_completed_if_new :
        (d : KeyDisk)
        → lookup_receipt j.operation_id d.receipts ≡ none
        → operation_completed sha256
            (some path)
            d.receipts
            d.identity.destination
            d.public.destination
            j.operation_id
            j.operation_kind
          ≡ ok false
    unfolding operation_completed
    not_completed_if_new d new = ground arith

    pub record-Costs :
        Costs IsPlaced IsRecorded IsInterrupted 1 (record_operation sha256 (some path) size j)
    unfolding record_operation
    record-Costs =
        Costs-weaken 1
          (Costs-or
            (Costs-reads {P = λ d. IsPlaced d × (lookup_receipt j.operation_id d.receipts ≡ none)} _
              false _ (λ d h. not_completed_if_new d h.1)
              (Costs-write _ (λ d h. h.0.interrupted)
                λ d h.
                  IsRecorded-of _ h.0.interrupted.journalled h.0.public h.0.identity (lookup-head d)
                    h.0.interrupted.tidy))
            (Costs-reads
              {P = λ d.
                IsPlaced d
                × (lookup_receipt j.operation_id d.receipts ≡ some (receipt_of path size j))}
              _ true _ (λ d h. completed_if_recorded d h.0 h.1)
              (Costs-weaken {C = IsInterrupted} 1
                (Costs-pure (λ d h. record { placed = h.0; recorded = h.1 })) (λ d h. h) (λ d h. h)
                (λ d h. h) (omega arith))))
          (λ d h. elim h.interrupted.recorded [
            | inl new ↦ inl (h, new)
            | inr found ↦ inr (h, found)
          ])
          (λ d h. h) (λ d h. h) (omega arith)
