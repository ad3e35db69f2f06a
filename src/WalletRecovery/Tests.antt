-- ===== src/WalletRecovery/Tests.antt =====
-- A run of app/src/lib/wallet-recovery.ts over a disk of two files.
use web_gui.Base.{◌≡◌, ◌≢◌, refl, true, [], ◌∷◌, Option, none, some, arith, if◌then◌else◌}
use web_gui.Text.{Text, codes, text_eq, text_eq_iff, text_eq_refl}
use web_gui.JsMap.{Map, get, set, get-set}
use web_gui.WalletRecovery.{
  WalletRecoveryDeps, RecoverThenSwapOptions, RecoveryLaws, recover_then_swap_wallet,
}
use web_gui.WalletRecovery.Safety.{IsSafeRun, recover_then_swap_wallet-IsSafeRun}

-- Paths to contents, none for a path without a file.
abbrev Disk : Type 0
Disk = Map (Option Text)

abbrev content : Text → Disk → Option Text
content p disk = elim (get p disk) [ some file ↦ file | none ↦ none ]

abbrev deps : WalletRecoveryDeps Disk
deps = record {
  wallet_close = λ disk. (true, disk);
  scanning = λ path mnemonic disk. set path (some (codes "partial")) disk ∷ [];
  recover_wallet = λ path mnemonic disk. (true, set path (some mnemonic) disk);
  open_wallet = λ path disk. (true, disk);
  unlink = λ path disk. (true, set path none disk);
  rename = λ from to disk. (true, set to (content from disk) disk);
}

content-set :
    (q p : Text) (v : Option Text) (disk : Disk)
    → content p (set q v disk) ≡ (if text_eq q p then v else content p disk)
content-set q p v disk = ground (arith, get-set q p v disk)

content-set_other :
    (q p : Text) (v : Option Text) (disk : Disk) → p ≢ q → content p (set q v disk) ≡ content p disk
content-set_other q p v disk h = ground (arith, content-set q p v disk, text_eq_iff q p)

content-set_same : (q : Text) (v : Option Text) (disk : Disk) → content q (set q v disk) ≡ v
content-set_same q v disk = ground (arith, content-set q q v disk, text_eq_refl q)

abbrev laws : RecoveryLaws deps Text
laws = record {
  file = content;
  local_of = λ p. p;
  wallet_of = λ mnemonic. mnemonic;
  close_files = λ p w. refl;
  open_files = λ q p w. refl;
  unlink_other = λ q p w h. content-set_other q p none w h;
  scanning_other = λ q m p w h. (content-set_other q p (some (codes "partial")) w h, tt);
  recover_other = λ q m p w h. content-set_other q p (some m) w h;
  recover_writes = λ q m w h. content-set_same q (some m) w;
  rename_moves = λ from to w h. content-set_same to (content from w) w;
  rename_fails = λ from to w h. absurd (ground arith);
}

abbrev opts : RecoverThenSwapOptions
opts = record { rpc_path = codes "w"; local_path = codes "w"; mnemonic = codes "abandon" }

abbrev disk : Disk
disk = (codes "w", some (codes "old")) ∷ []

recover_then_swap_wallet-IsSafeRun_example :
    IsSafeRun deps laws opts refl disk (recover_then_swap_wallet deps opts disk)
recover_then_swap_wallet-IsSafeRun_example =
    recover_then_swap_wallet-IsSafeRun deps laws opts refl disk
