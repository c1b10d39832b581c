-- ===== src/Process/Step/Histories.antt =====
-- Predicates of a row along a history of commands.
use myknowledgebase.Prelude.{ℕ, ◌≡◌, Bool, true, false, List, [], ◌∷◌, all, not, ◌&&◌, subst, refl}
use myknowledgebase.Process.Row.{Process}
use myknowledgebase.Process.Transaction.{Db}
use myknowledgebase.Process.Step.{
  Update, Updates, unchanged, then_update, Deployment, Command, perform, run, is_restart,
}
use myknowledgebase.Process.Step.Written.{perform-Updates}

module _ (P : Process → Type 0) where
  updates-keep :
      {b : Bool} (p q : Process)
      → ((p q : Process) → P p → Update b p q → P q)
      → P p
      → Updates b p q
      → P q
  updates-keep p q k s unchanged = s
  updates-keep p q k s (then_update us u) = k _ q (updates-keep p _ k s us) u

  pub run-keeps :
      (d : Deployment) (cs : List (Command × ℕ)) (db : Db)
      → ((b : Bool) (p q : Process) → P p → Update b p q → P q)
      → P db.process
      → P (run d cs db).process
  unfolding run
  run-keeps d [] db k s = s
  run-keeps d ((c, now) ∷ cs) db k s =
      run-keeps d cs (perform d c now db) k
        (updates-keep db.process _ (k (is_restart c)) s (perform-Updates d c now db))

  -- The same of the histories in which no operator restarts the Process.
  pub run-keeps_unrestarted :
      (d : Deployment) (cs : List (Command × ℕ)) (db : Db)
      → all (λ (c : Command × ℕ). not (is_restart c.0)) cs ≡ true
      → ((p q : Process) → P p → Update false p q → P q)
      → P db.process
      → P (run d cs db).process
  unfolding run
  run-keeps_unrestarted d [] db h k s = s
  run-keeps_unrestarted d ((c, now) ∷ cs) db h k s =
      let here = both h in
      run-keeps_unrestarted d cs (perform d c now db) here.1 k (
        updates-keep db.process (perform d c now db).process k s (
          subst (λ b. Updates b db.process (perform d c now db).process) here.0
            (perform-Updates d c now db)))
    where
      both : {a b : Bool} → (not a && b) ≡ true → (a ≡ false) × (b ≡ true)
      both {a = true} e = cc
      both {a = false} e = (refl, e)
