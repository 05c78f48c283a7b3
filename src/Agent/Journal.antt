-- ===== src/Agent/Journal.antt =====
-- How many transactions of which kind a part of a run of go/tools/cmd/aegis sends.
use aegis_labs.Common.{
  ℕ, ◌+◌, ◌≤◌, ◌≡◌, refl, ◌∙◌, ap, sym, Bool, true, false, List, [], ◌∷◌, ◌++◌, All, All-append,
  length, length-append, arith,
}
use aegis_labs.Common.Exec.{bind_within, ◌>>=◌}
use mathlib.Core.List.{append_assoc}
use aegis_labs.Agent.World.{Outside, Session, Run, Transaction, save_with, save_keeps, called}

-- At most `n` transactions were sent between two journals, all of them with `Q`.
abbrev pub Sends : (Transaction → Type 0) → ℕ → List Transaction → List Transaction → Type 0
Sends Q n before after =
    (new : List Transaction) × (after ≡ new ++ before) × (length new ≤ n) × All Q new

module _ {S : Type 0} where
  abbrev pub Sent : (Transaction → Type 0) → ℕ → Session S → Session S → Type 0
  Sent Q n s s' = Sends Q n s.world.journal s'.world.journal

module _ {S : Type 0} (Q : Transaction → Type 0) where
  pub none_sent : (s : Session S) → Sent Q 0 s s
  none_sent s = ([], refl, omega arith, tt)

  pub wait : (n k : ℕ) (s s' : Session S) → Sent Q n s s' → Sent Q (n + k) s s'
  wait n k s s' (new, is, few, all) = (new, is, omega arith, all)

  pub follow :
      (n k : ℕ) (s s' s'' : Session S) → Sent Q n s s' → Sent Q k s' s'' → Sent Q (n + k) s s''
  follow n k s s' s'' (new, is, few, all) (more, then_is, then_few, then_all) = (
    more ++ new,
    then_is ∙ ap (λ j. more ++ j) is ∙ sym (append_assoc more new s.world.journal),
    omega (arith, length-append more new),
    All-append Q more new then_all all,
  )

  pub call_sends :
      (f : S → S) (was_sent : Bool) (t : Transaction) (s : Session S)
      → Q t
      → Sent Q 1 s (called f was_sent t s)
  call_sends f true t s q = (t ∷ [], refl, omega arith, (q, tt))
  call_sends f false t s q = ([], refl, omega arith, tt)

  -- A part of a run that sends at most `n` transactions, however it ends.
  pub record Sparing {A : Type 0} (n : ℕ) (m : Run S A) : Type 0 where
    pub sends : (s : Session S) → Sent Q n s (m s).1

  pub save-Sparing : {P : Type 0} (o : Outside S P) → Sparing 0 (save_with o)
  save-Sparing o = record { sends = λ s. ([], (save_keeps o s).0, omega arith, tt) }

  pub quiet-Sparing :
      {A : Type 0} (m : Run S A)
      → ((s : Session S) → (m s).1.world.journal ≡ s.world.journal)
      → Sparing 0 m
  quiet-Sparing m quiet = record { sends = λ s. ([], quiet s, omega arith, tt) }

  pub bind-Sparing :
      {A B : Type 0} (n k : ℕ) (m : Run S A) (f : A → Run S B)
      → Sparing n m
      → ((a : A) → Sparing k (f a))
      → Sparing (n + k) (m >>= f)
  bind-Sparing n k m f first rest = record {
    sends =
        λ s. bind_within (Sent Q) wait follow n k m f s (first.sends s) (λ a s'. (rest a).sends s');
  }

  pub relax-Sparing : {A : Type 0} (n k : ℕ) (m : Run S A) → n ≤ k → Sparing n m → Sparing k m
  relax-Sparing n k m more h = record {
    sends = λ s. let (new, is, few, all) = h.sends s in (new, is, omega arith, all);
  }
