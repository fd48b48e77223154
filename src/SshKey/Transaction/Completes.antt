-- ===== src/SshKey/Transaction/Completes.antt =====
-- `recover_ssh_key_transaction` of keys.py, stopped by crashes and run again.
use shuttle_gate.Base.{
  String, ℕ, ◌+◌, ◌≤◌, ◌<◌, ◌≡◌, refl, false, Option, none, some, inl, inr, arith, List, [], ◌∷◌,
  ltb,
}
use shuttle_gate.Durable.{Run, Durable, Outcome, done, raised, crashed, Ends}
use shuttle_gate.Durable.Costs.{Costs, Costs-pure, Costs-reads, Costs-seq, Costs-or, Costs-weaken}
use shuttle_gate.SshKey.Journal.{Journal, read_transaction, max_ssh_transaction_bytes}
use shuttle_gate.SshKey.Transaction.{
  KeyDisk, clean, resume, recover, drop_private_stage, drop_public_stage, drop_private_backup,
  drop_public_backup,
}
use shuttle_gate.SshKey.Transaction.Steps.{IsInterrupted, finish-Costs, record-Costs}
use shuttle_gate.SshKey.Transaction.Recovery.{
  IsComplete, IsSafe, remove-Costs, clean_none, clean_generated, clean_rest,
}

module _ (sha256 : String → String) (path : String) (size : ℕ) (j : Journal) (limit : ℕ) where
  abbrev Complete : KeyDisk → Type 0
  Complete = IsComplete sha256 path size j limit

  abbrev Safe : KeyDisk → Type 0
  Safe = IsSafe sha256 path size j limit

  clean-Costs : Costs Complete Complete Safe (1 + limit) clean
  unfolding clean
  clean-Costs =
      Costs-weaken (1 + limit)
        (Costs-seq
          (clean_none sha256 path size j limit (λ d. d.identity.stage) drop_private_stage
            (λ d h. h.cleared.2))
          (Costs-seq (clean_generated sha256 path size j limit) (
            Costs-seq
              (clean_none sha256 path size j limit (λ d. d.public.stage) drop_public_stage
                (λ d h. h.cleared.0))
              (Costs-seq
                (clean_none sha256 path size j limit (λ d. d.identity.backup) drop_private_backup
                  (λ d h. h.cleared.3))
                (Costs-seq
                  (clean_none sha256 path size j limit (λ d. d.public.backup) drop_public_backup
                    (λ d h. h.cleared.1))
                  (clean_rest sha256 path size j limit))))))
        (λ d h. h) (λ d h. h) (λ d h. h) (omega arith)

  safe :
      {P Q : KeyDisk → Type 0} {cost : ℕ} {m : Durable KeyDisk (Unit {0})}
      → Costs P Q (IsInterrupted sha256 path size j limit) cost m
      → Costs P Q Safe cost m
  safe {P} {Q} {cost} h =
      Costs-weaken {P' = P} {Q' = Q} {C' = Safe} cost h (λ d k. k) (λ d k. k) (λ d k. inl k)
        (omega arith)

  module _ (fits : ltb max_ssh_transaction_bytes size ≡ false) where
    resume-Costs :
        Costs
          (IsInterrupted sha256 path size j limit)
          Complete
          Safe
          12
          (resume sha256 (some path) size (some j))
    unfolding resume
    resume-Costs = Costs-seq (safe (finish-Costs sha256 path size j limit)) (
        Costs-seq (safe (record-Costs sha256 path size j limit fits))
          (remove-Costs sha256 path size j limit))

    recover-IsInterrupted :
        Costs
          (IsInterrupted sha256 path size j limit)
          Complete
          Safe
          (13 + limit)
          (recover sha256 (some path) size)
    unfolding recover
    recover-IsInterrupted =
        Costs-weaken (13 + limit)
          (Costs-reads (λ d. read_transaction d.journal) (some j) _ (λ d h. h.journalled)
            (Costs-seq resume-Costs clean-Costs))
          (λ d h. h) (λ d h. h) (λ d h. h) (omega arith)

    recover-Complete : Costs Complete Complete Safe (13 + limit) (recover sha256 (some path) size)
    unfolding recover resume read_transaction
    recover-Complete =
        Costs-weaken (13 + limit)
          (Costs-reads (λ d. read_transaction d.journal) none _ (λ d h. rw h.journal refl)
            (Costs-seq (Costs-pure {Q = Complete} (λ d h. h)) clean-Costs))
          (λ d h. h) (λ d h. h) (λ d h. h) (omega arith)

    recover-Costs : Costs Safe Complete Safe (13 + limit) (recover sha256 (some path) size)
    recover-Costs = Costs-or recover-IsInterrupted recover-Complete

-- The disk after runs that may each have been stopped after so many writes.
module _ (sha256 : String → String) (identity : Option String) (size : ℕ) where
  unfoldable pub after_crashes : List ℕ → KeyDisk → KeyDisk
  after_crashes [] d = d
  after_crashes (b ∷ budgets) d = after_crashes budgets (recover sha256 identity size d b).state

Ends-either :
    {S A : Type 0} (P : A → S → ℕ → Type 0) (C R : S → Type 0) (r : Run S A)
    → Ends P C r
    → ((a : A) (s : S) (b : ℕ) → P a s b → R s)
    → ((s : S) → C s → R s)
    → R r.state
Ends-either P C R r h f g = at r.outcome r.state r.left h
  where
    at :
        (o : Outcome _) (s : _) (b : ℕ)
        → Ends P C (record { outcome = o; state = s; left = b })
        → R s
    at (done a) s b h = f a s b h
    at (raised e) s b h = absurd h
    at crashed s b h = g s h

Ends-done :
    {S : Type 0} (P : Unit {0} → S → ℕ → Type 0) (C R : S → Type 0) (r : Run S (Unit {0}))
    → Ends P C r
    → ((s : S) (b : ℕ) → P tt s b → R s)
    → ((s : S) → ¬ C s)
    → (r.outcome ≡ done tt) × R r.state
Ends-done P C R r h f g = at r.outcome r.state r.left h
  where
    at :
        (o : Outcome (Unit {0})) (s : _) (b : ℕ)
        → Ends P C (record { outcome = o; state = s; left = b })
        → (o ≡ done tt) × R s
    at (done tt) s b h = (refl, f s b h)
    at (raised e) s b h = absurd h
    at crashed s b h = absurd (g s h)

module _ (sha256 : String → String) (path : String) (size : ℕ) (j : Journal) (limit : ℕ)
    (fits : ltb max_ssh_transaction_bytes size ≡ false) where
  IsSafe-after :
      (budgets : List ℕ) (d : KeyDisk)
      → IsSafe sha256 path size j limit d
      → IsSafe sha256 path size j limit (after_crashes sha256 (some path) size budgets d)
  unfolding after_crashes
  IsSafe-after [] d h = h
  IsSafe-after (b ∷ budgets) d h = IsSafe-after budgets _ (
      Ends-either (λ _ s b'. IsComplete sha256 path size j limit s × (b ≤ b' + (13 + limit)))
        (λ s. IsSafe sha256 path size j limit s × (b < 13 + limit))
        (IsSafe sha256 path size j limit) _
        ((recover-Costs sha256 path size j limit fits).runs d b h) (λ _ s b' k. inr k.0)
        (λ s k. k.0))

  -- From a disk that a crash left in the middle of a key replacement, if the text of its receipt
  -- is within the size limit: however many times recovery
  -- runs and is itself stopped after any number of writes, a further run that is let through
  -- 13 writes and one more for every stray file raises nothing, and leaves the new key pair in
  -- place and recorded, with the journal, the stages and the backups gone.
  pub recover_completes :
      (budgets : List ℕ) (d : KeyDisk) (b : ℕ)
      → IsInterrupted sha256 path size j limit d
      → 13 + limit ≤ b
      → ((recover sha256
            (some path)
            size
            (after_crashes sha256 (some path) size budgets d)
            b).outcome
          ≡ done tt)
        × IsComplete sha256 path size j limit
            (recover sha256
              (some path)
              size
              (after_crashes sha256 (some path) size budgets d)
              b).state
  recover_completes budgets d b h enough =
      Ends-done (λ _ s b'. IsComplete sha256 path size j limit s × (b ≤ b' + (13 + limit)))
        (λ s. IsSafe sha256 path size j limit s × (b < 13 + limit))
        (IsComplete sha256 path size j limit) _
        ((recover-Costs sha256 path size j limit fits).runs _ b (IsSafe-after budgets d (inl h)))
        (λ s b' k. k.0) (λ s k. omega (arith, k.1, enough))
