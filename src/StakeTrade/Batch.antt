-- ===== src/StakeTrade/Batch.antt =====
-- The loop of daemon calls in app/src/pages/api/stake-trade.ts.
use web_gui.Base.{
  suc, ◌≡◌, refl, sym, ap, subst, inl, inr, ◌∙◌, List, [], ◌∷◌, ◌++◌, arith, length, length-append,
  append_assoc, append-nil,
}
use web_gui.Json.{Json}
use web_gui.Gated.Laws.{RpcAnswer-cases}
use web_gui.StakeTrade.{BatchItem, Response, ok, failed, Daemon, run_batch}

-- After an answer without an error every item was called, in order, with one result each; after a
-- failure the calls are a first part of the items, and all of them but the last were completed.
abbrev pub IsOutcome : List BatchItem → Response → List BatchItem → Type 0
IsOutcome items (ok results) made = (made ≡ items) × (length results ≡ length items)
IsOutcome items (failed error status completed) made =
    (rest : List BatchItem) × ((items ≡ made ++ rest) × (length made ≡ suc completed))

append_one : (xs ys : List BatchItem) (x : BatchItem) → (xs ++ x ∷ []) ++ ys ≡ xs ++ x ∷ ys
append_one xs ys x = append_assoc xs (x ∷ []) ys

run_batch-IsOutcome_from :
    (daemon : Daemon) (made : List BatchItem) (results : List Json) (items : List BatchItem)
    → length results ≡ length made
    → IsOutcome
        (made ++ items)
        (run_batch daemon made results items).0
        (run_batch daemon made results items).1
unfolding run_batch
run_batch-IsOutcome_from daemon made results [] h =
    (sym (append-nil made), h ∙ ap length (sym (append-nil made)))
run_batch-IsOutcome_from daemon made results (item ∷ items) h =
    elim (RpcAnswer-cases (daemon made item)) [
      | inl (v, e) ↦
          let longer : length (results ++ v ∷ []) ≡ length (made ++ item ∷ []) =
            omega (arith, length-append results (v ∷ []), length-append made (item ∷ [])) in
          let rest =
            run_batch-IsOutcome_from daemon (made ++ item ∷ []) (results ++ v ∷ []) items longer in
          rw (run_batch, e)
            (subst
              (λ all.
                IsOutcome all (run_batch daemon (made ++ item ∷ []) (results ++ v ∷ []) items).0
                  (run_batch daemon (made ++ item ∷ []) (results ++ v ∷ []) items).1)
              (append_one made items item) rest)
      | inr (inl (message, (code, e))) ↦
          rw (run_batch, e)
            (
              items,
              (sym (append_one made items item), omega (arith, length-append made (item ∷ []))),
            )
      | inr (inr e) ↦
          rw (run_batch, e)
            (
              items,
              (sym (append_one made items item), omega (arith, length-append made (item ∷ []))),
            )
    ]

pub run_batch-IsOutcome :
    (daemon : Daemon) (items : List BatchItem)
    → IsOutcome items (run_batch daemon [] [] items).0 (run_batch daemon [] [] items).1
run_batch-IsOutcome daemon items = run_batch-IsOutcome_from daemon [] [] items refl
