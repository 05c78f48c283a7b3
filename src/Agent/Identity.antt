-- ===== src/Agent/Identity.antt =====
-- The parts of a run of go/tools/cmd/aegis that leave the policy it works on the same.
use aegis_labs.Common.{◌≡◌, ◌∙◌, ap}
use aegis_labs.Common.Exec.{bind_within, ◌>>=◌}
use aegis_labs.Agent.World.{Outside, Session, Run, save_with, save_keeps}

module _ {S : Type 0} where
  abbrev pub SamePolicy : Session S → Session S → Type 0
  SamePolicy s s' =
      (s'.current.name ≡ s.current.name)
      × (s'.current.policy_id ≡ s.current.policy_id)
      × (s'.current.model_registered ≡ s.current.model_registered)

  follow : (s s' s'' : Session S) → SamePolicy s s' → SamePolicy s' s'' → SamePolicy s s''
  follow s s' s'' (name, id, model) (name', id', model') = (name' ∙ name, id' ∙ id, model' ∙ model)

  pub record Keeping {A : Type 0} (m : Run S A) : Type 0 where
    pub keeps : (s : Session S) → SamePolicy s (m s).1

  -- A step that does not touch the three fields.
  pub plain : {A : Type 0} (m : Run S A) → ((s : Session S) → SamePolicy s (m s).1) → Keeping m
  plain m same = record { keeps = same }

  pub save-Keeping : {P : Type 0} (o : Outside S P) → Keeping (save_with o)
  save-Keeping o = record {
    keeps = λ s.
        let same = (save_keeps o s).2 in
        (ap (λ r. r.name) same, ap (λ r. r.policy_id) same, ap (λ r. r.model_registered) same);
  }

  pub bind-Keeping :
      {A B : Type 0} (m : Run S A) (f : A → Run S B)
      → Keeping m
      → ((a : A) → Keeping (f a))
      → Keeping (m >>= f)
  bind-Keeping m f first rest = record {
    keeps = λ s.
        bind_within (λ n. SamePolicy) (λ n k s s' r. r) (λ n k. follow) 0 0 m f s (first.keeps s)
          (λ a s'. (rest a).keeps s');
  }
