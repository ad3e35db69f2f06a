-- ===== src/WalletRecovery.antt =====
-- app/src/lib/wallet-recovery.ts: recoverThenSwapWallet. The calls of the daemon and of the file system
-- are an interface over a type of worlds; each says whether it succeeds and what the world is after it.
pub mod Safety
mod Tests
use web_gui.Base.{
  ℕ, ◌≡◌, ◌≢◌, Bool, true, false, not, List, [], ◌∷◌, ◌++◌, Option, none, some, All, if◌then◌else◌,
}
use web_gui.Text.{Text, codes}

-- The operations of WalletRecoveryDeps. The recovery takes long: `scanning` are the worlds in which
-- the program may be stopped meanwhile.
pub record WalletRecoveryDeps (World : Type 0) : Type 0 where
  pub wallet_close : World → Bool × World
  pub scanning : (path mnemonic : Text) → World → List World
  pub recover_wallet : (path mnemonic : Text) → World → Bool × World
  pub open_wallet : (path : Text) → World → Bool × World
  pub unlink : (path : Text) → World → Bool × World
  pub rename : (from to : Text) → World → Bool × World

pub record RecoverThenSwapOptions : Type 0 where
  pub rpc_path : Text
  pub local_path : Text
  pub mnemonic : Text

abbrev pub recover_suffix : Text
recover_suffix = codes ".recover"

-- The worlds that the run goes through, the last one, and whether it ends without an exception.
pub record Run (World : Type 0) : Type 0 where
  pub trace : List World
  pub last : World
  pub succeeded : Bool

module _ {World : Type 0} (deps : WalletRecoveryDeps World) where
  abbrev pub ended : List World → Bool × World → Run World
  ended trace (succeeded, w) = record { trace = trace; last = w; succeeded = succeeded }

  -- From step 5 on: rename, open.
  abbrev pub swap : RecoverThenSwapOptions → List World → World → Run World
  swap opts trace w =
      let (renamed, w') = deps.rename (opts.local_path ++ recover_suffix) opts.local_path w in
      if not renamed
      then ended trace (false, w')
      else ended (w' ∷ trace) (deps.open_wallet opts.rpc_path w')

  unfoldable pub recover_then_swap_wallet : RecoverThenSwapOptions → World → Run World
  recover_then_swap_wallet opts w =
      let closed = (deps.wallet_close w).1 in
      let cleared = (deps.unlink (opts.local_path ++ recover_suffix) closed).1 in
      let path = opts.rpc_path ++ recover_suffix in
      let during = deps.scanning path opts.mnemonic cleared in
      let (recovered, w') = deps.recover_wallet path opts.mnemonic cleared in
      if not recovered
      then ended (during ++ cleared ∷ closed ∷ []) (false, w')
      else let reclosed = (deps.wallet_close w').1 in
        swap opts (reclosed ∷ w' ∷ (during ++ cleared ∷ closed ∷ [])) reclosed

-- What the operations do to the files: `file p w` is what stands at the local path p, `local_of` the
-- local path of a path of the daemon, `wallet_of` the wallet file of a mnemonic.
pub record RecoveryLaws {World : Type 0} (deps : WalletRecoveryDeps World) (Content : Type 0)
    : Type 0 where
  pub file : Text → World → Option Content
  pub local_of : Text → Text
  pub wallet_of : Text → Content
  pub close_files : (p : Text) (w : World) → file p (deps.wallet_close w).1 ≡ file p w
  pub open_files : (q p : Text) (w : World) → file p (deps.open_wallet q w).1 ≡ file p w
  pub unlink_other : (q p : Text) (w : World) → p ≢ q → file p (deps.unlink q w).1 ≡ file p w
  pub scanning_other :
      (q m p : Text) (w : World)
      → p ≢ local_of q
      → All (λ v. file p v ≡ file p w) (deps.scanning q m w)
  pub recover_other :
      (q m p : Text) (w : World) → p ≢ local_of q → file p (deps.recover_wallet q m w).1 ≡ file p w
  pub recover_writes :
      (q m : Text) (w : World)
      → (deps.recover_wallet q m w).0 ≡ true
      → file (local_of q) (deps.recover_wallet q m w).1 ≡ some (wallet_of m)
  -- rename replaces its target at once, or leaves it
  pub rename_moves :
      (from to : Text) (w : World)
      → (deps.rename from to w).0 ≡ true
      → file to (deps.rename from to w).1 ≡ file from w
  pub rename_fails :
      (from to : Text) (w : World)
      → (deps.rename from to w).0 ≡ false
      → file to (deps.rename from to w).1 ≡ file to w
