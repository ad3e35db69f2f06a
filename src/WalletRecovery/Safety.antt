-- ===== src/WalletRecovery/Safety.antt =====
-- The wallet file that app/src/lib/wallet-recovery.ts keeps at every moment.
use web_gui.Base.{
  ◌≡◌, ◌≢◌, refl, subst, ◌∙◌, ◌⊎◌, inl, inr, false, List, [], ◌∷◌, ◌++◌, Option, some, arith, All,
  All-append, Bool-cases,
}
use web_gui.Text.{Text}
use web_gui.WalletRecovery.{
  WalletRecoveryDeps, RecoverThenSwapOptions, RecoveryLaws, Run, recover_suffix, swap,
  recover_then_swap_wallet,
}

suffix-ne : (p : Text) → p ≢ p ++ recover_suffix
suffix-ne [] h = absurd (ground arith)
suffix-ne (c ∷ p) h = suffix-ne p (ground arith)

module _ {World Content : Type 0} (deps : WalletRecoveryDeps World)
    (laws : RecoveryLaws deps Content) (opts : RecoverThenSwapOptions)
    (mounted : laws.local_of (opts.rpc_path ++ recover_suffix)
      ≡ opts.local_path ++ recover_suffix) where
  abbrev at_path : World → Option Content
  at_path w = laws.file opts.local_path w

  -- The old file, or the whole recovered one.
  abbrev pub IsWhole : World → World → Type 0
  IsWhole w v =
      (laws.file opts.local_path v ≡ laws.file opts.local_path w)
      ⊎ (laws.file opts.local_path v ≡ some (laws.wallet_of opts.mnemonic))

  -- A run in which every world is whole.
  pub record IsSafeRun (w : World) (run : Run World) : Type 0 where
    pub whole : All (IsWhole w) run.trace
    pub whole_last : IsWhole w run.last
    pub done :
        (run.succeeded ≡ false)
        ⊎ (laws.file opts.local_path run.last ≡ some (laws.wallet_of opts.mnemonic))

  swap-IsSafeRun :
      (w : World) (trace : List World) (v : World)
      → All (IsWhole w) trace
      → at_path v ≡ at_path w
      → laws.file (opts.local_path ++ recover_suffix) v ≡ some (laws.wallet_of opts.mnemonic)
      → IsSafeRun w (swap deps opts trace v)
  swap-IsSafeRun w trace v h same temp =
      elim (Bool-cases (deps.rename (opts.local_path ++ recover_suffix) opts.local_path v).0) [
        | inr failed ↦ rw failed (record {
          whole = h;
          whole_last = inl (laws.rename_fails _ _ v failed ∙ same);
          done = inl refl;
        })
        | inl renamed ↦
            let moved = laws.rename_moves _ _ v renamed ∙ temp in
            let opened = laws.open_files opts.rpc_path opts.local_path _ ∙ moved in
            rw renamed
              (record { whole = (inr moved, h); whole_last = inr opened; done = inr opened })
      ]

  All-inl : (w : World) (vs : List World) → All (λ v. at_path v ≡ at_path w) vs → All (IsWhole w) vs
  All-inl w [] h = tt
  All-inl w (v ∷ vs) (p, h) = (inl p, All-inl w vs h)

  All-trans :
      (w v : World)
      → at_path v ≡ at_path w
      → (vs : List World) → All (λ u. at_path u ≡ at_path v) vs
      → All (λ u. at_path u ≡ at_path w) vs
  All-trans w v e [] h = tt
  All-trans w v e (u ∷ vs) (p, h) = (p ∙ e, All-trans w v e vs h)

  -- At every moment of a run the wallet path holds the old file or the whole wallet of the mnemonic,
  -- also while the recovery scans and where a step fails, and a run without an exception ends with the
  -- wallet of the mnemonic there.
  pub recover_then_swap_wallet-IsSafeRun :
      (w : World) → IsSafeRun w (recover_then_swap_wallet deps opts w)
  unfolding recover_then_swap_wallet
  recover_then_swap_wallet-IsSafeRun w =
      let closed = (deps.wallet_close w).1 in
      let cleared = (deps.unlink (opts.local_path ++ recover_suffix) closed).1 in
      let path = opts.rpc_path ++ recover_suffix in
      let w' = (deps.recover_wallet path opts.mnemonic cleared).1 in
      let kept_closed : at_path closed ≡ at_path w = laws.close_files opts.local_path w in
      let kept_cleared : at_path cleared ≡ at_path w =
        laws.unlink_other _ opts.local_path closed (suffix-ne opts.local_path) ∙ kept_closed in
      let apart : opts.local_path ≢ laws.local_of path =
        λ e. suffix-ne opts.local_path (e ∙ mounted) in
      let kept_recovered : at_path w' ≡ at_path w =
        laws.recover_other path opts.mnemonic opts.local_path cleared apart ∙ kept_cleared in
      let before : All (IsWhole w)
          (deps.scanning path opts.mnemonic cleared ++ cleared ∷ closed ∷ []) =
        All-append (IsWhole w) _ _
          (All-inl w _ (
            All-trans w cleared kept_cleared _
              (laws.scanning_other path opts.mnemonic opts.local_path cleared apart)))
          (inl kept_cleared, (inl kept_closed, tt)) in
      elim (Bool-cases (deps.recover_wallet path opts.mnemonic cleared).0) [
        | inr failed ↦
            rw (recover_then_swap_wallet, failed)
              (record { whole = before; whole_last = inl kept_recovered; done = inl refl })
        | inl recovered ↦
            let reclosed = (deps.wallet_close w').1 in
            let kept_reclosed : at_path reclosed ≡ at_path w =
              laws.close_files opts.local_path w' ∙ kept_recovered in
            let written =
              laws.close_files (opts.local_path ++ recover_suffix) w'
              ∙ subst (λ p. laws.file p w' ≡ some (laws.wallet_of opts.mnemonic)) mounted
                  (laws.recover_writes path opts.mnemonic cleared recovered) in
            rw (recover_then_swap_wallet, recovered)
              (swap-IsSafeRun w
                (reclosed
                  ∷ w'
                  ∷ (deps.scanning path opts.mnemonic cleared ++ cleared ∷ closed ∷ []))
                reclosed (inl kept_reclosed, (inl kept_recovered, before)) kept_reclosed written)
      ]
