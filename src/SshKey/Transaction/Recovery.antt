-- ===== src/SshKey/Transaction/Recovery.antt =====
-- `recover_ssh_key_transaction` of keys.py on what a crash left: its parts put together.
use shuttle_gate.Base.{
  String, ℕ, suc, ◌≤◌, ◌≡◌, refl, false, Option, none, some, ◌⊎◌, inl, inr, arith, List, [], ◌∷◌,
  All, length, if◌then◌else◌, subst,
}
use shuttle_gate.Durable.{write, ◌>>◌}
use shuttle_gate.Durable.Costs.{Costs, Costs-write, Costs-seq, Costs-weaken}
use shuttle_gate.SshKey.{StoredFile, Holds}
use shuttle_gate.SshKey.Journal.{Journal}
use shuttle_gate.SshKey.Receipt.{lookup_receipt, receipt_of}
use shuttle_gate.SshKey.Transaction.{
  KeyDisk, remove, clean_orphans, clean_one, clean_found, drop_generated, drop_private_stage,
  drop_public_stage, drop_private_backup, drop_public_backup, drop_journal,
}
use shuttle_gate.SshKey.Transaction.Steps.{
  IsTidy, IsTidyFile, IsInterrupted, IsRecorded, IsRecorded-of,
}

module _ (sha256 : String → String) (path : String) (size : ℕ) (j : Journal) (limit : ℕ) where
  -- The replacement is done and recorded, and nothing of the transaction is left but orphans.
  pub record IsComplete (d : KeyDisk) : Type 0 where
    pub journal : d.journal ≡ none
    pub public : Holds sha256 j.public_new d.public.destination
    pub identity : Holds sha256 j.private_new d.identity.destination
    pub recorded : lookup_receipt j.operation_id d.receipts ≡ some (receipt_of path size j)
    pub cleared :
        (d.public.stage ≡ none)
        × (d.public.backup ≡ none)
        × (d.identity.stage ≡ none)
        × (d.identity.backup ≡ none)
    pub tidy : IsTidy limit d

  -- What a crash may leave.
  abbrev pub IsSafe : KeyDisk → Type 0
  IsSafe d = IsInterrupted sha256 path size j limit d ⊎ IsComplete d

  abbrev Recorded : KeyDisk → Type 0
  Recorded = IsRecorded sha256 path size j limit

  -- One of the first four unlinks: the new files, the journal and the receipt stay.
  dropped :
      (d d' : KeyDisk)
      → Recorded d
      → d'.journal ≡ d.journal
      → d'.receipts ≡ d.receipts
      → d'.public.destination ≡ d.public.destination
      → d'.identity.destination ≡ d.identity.destination
      → IsTidy limit d'
      → Recorded d'
  dropped d d' h e₁ e₂ e₃ e₄ tidy =
      IsRecorded-of sha256 path size j limit d' (rw e₁ h.placed.interrupted.journalled)
        (rw e₃ h.placed.public) (rw e₄ h.placed.identity) (rw e₂ h.recorded) tidy

  abbrev IsCleared : KeyDisk → Type 0
  IsCleared d =
      (d.public.stage ≡ none)
      × (d.public.backup ≡ none)
      × (d.identity.stage ≡ none)
      × (d.identity.backup ≡ none)

  pub remove-Costs : Costs Recorded IsComplete IsSafe 5 remove
  unfolding remove
  remove-Costs =
      Costs-seq
        (Costs-write {Q = λ d. Recorded d × (d.identity.stage ≡ none)} drop_private_stage
          (λ d h. inl h.placed.interrupted)
          (λ d h. (
            dropped d (drop_private_stage d) h refl refl refl refl h.placed.interrupted.tidy,
            refl,
          )))
        (Costs-seq
          (Costs-write {Q = λ d. Recorded d × (d.identity.stage ≡ none) × (d.public.stage ≡ none)}
            drop_public_stage (λ d h. inl h.0.placed.interrupted)
            (λ d h. (
              dropped d (drop_public_stage d) h.0 refl refl refl refl h.0.placed.interrupted.tidy,
              h.1,
              refl,
            )))
          (Costs-seq
            (Costs-write
              {Q = λ d.
                Recorded d
                × (d.identity.stage ≡ none)
                × (d.public.stage ≡ none)
                × (d.identity.backup ≡ none)}
              drop_private_backup (λ d h. inl h.0.placed.interrupted)
              (λ d h. (
                dropped d (drop_private_backup d) h.0 refl refl refl refl
                    h.0.placed.interrupted.tidy,
                h.1,
                h.2,
                refl,
              )))
            (Costs-seq
              (Costs-write {Q = λ d. Recorded d × IsCleared d} drop_public_backup
                (λ d h. inl h.0.placed.interrupted)
                (λ d h. (
                  dropped d (drop_public_backup d) h.0 refl refl refl refl
                      h.0.placed.interrupted.tidy,
                  (h.2, refl, h.1, h.3),
                )))
              (Costs-write drop_journal (λ d h. inl h.0.placed.interrupted)
                (λ d h. record {
                  journal = refl;
                  public = h.0.placed.public;
                  identity = h.0.placed.identity;
                  recorded = h.0.recorded;
                  cleared = h.1;
                  tidy = h.0.placed.interrupted.tidy;
                })))))

  pub clean_none :
      (get : KeyDisk → Option StoredFile) (drop : KeyDisk → KeyDisk)
      → ((d : KeyDisk) → IsComplete d → get d ≡ none)
      → Costs IsComplete IsComplete IsSafe 0 (clean_one get drop)
  clean_none get drop e = record { runs = λ d b h. rw (e d h) (h, omega arith) }

  write_generated : Costs IsComplete IsComplete IsSafe 1 (write drop_generated)
  write_generated =
      Costs-write drop_generated (λ d h. inr h)
        λ d h. record {
          journal = h.journal;
          public = h.public;
          identity = h.identity;
          recorded = h.recorded;
          cleared = h.cleared;
          tidy = (tt, h.tidy.1, h.tidy.2);
        }

  found_generated :
      (f : Option StoredFile)
      → IsTidyFile f
      → Costs IsComplete IsComplete IsSafe 1 (clean_found drop_generated f)
  found_generated none t = record { runs = λ d b h. (h, omega arith) }
  found_generated (some f) t = rw t write_generated

  pub clean_generated :
      Costs IsComplete IsComplete IsSafe 1 (clean_one (λ d. d.generated) drop_generated)
  clean_generated = record { runs = λ d b h. (found_generated d.generated h.tidy.0).runs d b h }

  abbrev WithOrphans : List StoredFile → KeyDisk → Type 0
  WithOrphans l d = IsComplete d × (d.orphans ≡ l)

  orphan_gone :
      (f : StoredFile) (rest : List StoredFile)
      → Costs
          (WithOrphans (f ∷ rest))
          (WithOrphans rest)
          IsSafe
          1
          (write (λ d. record d { orphans = rest }))
  orphan_gone f rest =
      Costs-write (λ d. record d { orphans = rest }) (λ d h. inr h.0)
        λ d h.
          let tidy =
            subst (λ l. All (λ f. f.directory ≡ false) l × (length l ≤ limit)) h.1
              (h.0.tidy.1, h.0.tidy.2) in
          (
            record {
              journal = h.0.journal;
              public = h.0.public;
              identity = h.0.identity;
              recorded = h.0.recorded;
              cleared = h.0.cleared;
              tidy = (h.0.tidy.0, tidy.0.1, omega (arith, tidy.1));
            },
            refl,
          )

  clean_orphans-cons :
      (f : StoredFile) (rest : List StoredFile)
      → f.directory ≡ false
      → clean_orphans (f ∷ rest) ≡ (write (λ d. record d { orphans = rest }) >> clean_orphans rest)
  clean_orphans-cons f rest e = simp (e, if◌then◌else◌)

  orphans-Costs :
      (l : List StoredFile)
      → All (λ f. f.directory ≡ false) l
      → Costs (WithOrphans l) IsComplete IsSafe (length l) (clean_orphans l)
  orphans-Costs [] t = record { runs = λ d b h. (h.0, omega arith) }
  orphans-Costs (f ∷ rest) t =
      let after : Costs (WithOrphans (f ∷ rest)) IsComplete IsSafe (suc (length rest))
          (write (λ d. record d { orphans = rest }) >> clean_orphans rest) =
        Costs-weaken (suc (length rest)) (Costs-seq (orphan_gone f rest) (orphans-Costs rest t.1))
          (λ d h. h) (λ d h. h) (λ d h. h) (omega arith) in
      rw (clean_orphans-cons f rest t.0) after

  pub clean_rest : Costs IsComplete IsComplete IsSafe limit (λ d. clean_orphans d.orphans d)
  clean_rest = record {
    runs = λ d b h.
        (Costs-weaken limit (orphans-Costs d.orphans h.tidy.1) (λ d h. h) (λ d h. h) (λ d h. h)
            h.tidy.2).runs
          d b (h, refl);
  }
