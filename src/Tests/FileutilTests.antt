-- ===== src/Tests/FileutilTests.antt =====
-- The theorems about internal/fileutil applied to a small file system, in which a file cannot be
-- given a mode while there is one named `readonly`.
use unifi_6in.Prelude.{
  String, ◌≡◌, refl, ◌≢◌, ap, Option, none, some, is_some, ◌==◌, if◌then◌else◌, arith, eq_iff,
  eq_refl,
}
use mathlib.Core.Path.{subst}
use unifi_6in.Errors.{Error, plain, not_exist, Result, ok, err}
use unifi_6in.Fileutil.{
  FileSystem, write_atomically, after_mkdir, after_create, after_write, close_temp, or_discard,
  chmod_temp,
}
use unifi_6in.Fileutil.Atomicity.{IsLawful, Ends, write_atomically-Ends}

abbrev Disk : Type 0
Disk = String → Option String

abbrev set : Disk → String → Option String → Disk
set w a v = λ q. if q == a then v else w q

abbrev temp_name : String
temp_name = ".tmp-1"

abbrev created : Option String → Disk → Result String × Disk
created none w = (ok temp_name, set w temp_name (some ""))
created (some _) w = (err (plain "file exists"), w)

abbrev sample_fs : FileSystem String Disk
sample_fs = record {
  dir = λ _. ".";
  mkdir_all = λ _ w. (none, w);
  create_temp = λ _ w. created (w temp_name) w;
  write = λ tmp text w. (none, set w tmp (some text));
  close = λ _ w. (none, w);
  chmod = λ _ w. (if is_some (w "readonly") then some (plain "not permitted") else none, w);
  rename = λ a b w. (none, λ q. if q == b then w a else if q == a then none else w q);
  remove = λ a w. (none, set w a none);
  read_file =
      λ path w. elim (w path) [ none ↦ err (not_exist "no such file") | some text ↦ ok text ];
}

created-new :
    (c : Option String) (w : Disk) (tmp : String)
    → w temp_name ≡ c
    → (created c w).0 ≡ ok tmp
    → w tmp ≡ none
created-new none w tmp h e = let same : temp_name ≡ tmp = cc in subst (λ q. w q ≡ none) same h
created-new (some x) w tmp h e = absurd (cc)

created-makes :
    (c : Option String) (w : Disk) (tmp q : String)
    → (created c w).0 ≡ ok tmp
    → (created c w).1 q ≡ (if q == tmp then some "" else w q)
created-makes none w tmp q e =
    let same : temp_name ≡ tmp = cc in ap (λ t. if q == t then some "" else w q) same
created-makes (some x) w tmp q e = absurd (cc)

created-fails :
    (c : Option String) (w : Disk) (e : Error) (q : String)
    → (created c w).0 ≡ err e
    → (created c w).1 q ≡ w q
created-fails none w x q e = absurd (cc)
created-fails (some _) w x q e = refl

set-other : (w : Disk) (a : String) (v : Option String) (q : String) → q ≢ a → set w a v q ≡ w q
set-other w a v q ne = ground (arith, eq_iff q a)

set-same : (w : Disk) (a : String) (v : Option String) → set w a v a ≡ v
set-same w a v = rw (eq_refl a) refl

never : {A : Type 0} → (x : Error) → ◌≡◌ {A = Option Error} none (some x) → A
never x e = absurd (cc)

abbrev sample_lawful : IsLawful sample_fs
sample_lawful = record {
  contents = λ w. w;
  empty = "";
  mkdir_keeps = λ _ w q. refl;
  create_is_new = λ _ w tmp e. created-new (w temp_name) w tmp refl e;
  create_makes = λ _ w tmp q e. created-makes (w temp_name) w tmp q e;
  create_fails = λ _ w x q e. created-fails (w temp_name) w x q e;
  write_keeps = λ tmp text w q ne. set-other w tmp (some text) q ne;
  write_stores = λ tmp text w _ _. set-same w tmp (some text);
  close_keeps = λ _ w q. refl;
  chmod_keeps = λ _ w q. refl;
  rename_moves = λ a b w q _. refl;
  rename_fails = λ a b w x q e. never x e;
  remove_keeps = λ a w q ne. set-other w a none q ne;
  remove_clears = λ a w _. set-same w a none;
  read_finds = λ path w text e. rw e refl;
}

-- a configuration and a state, and no right to change modes
abbrev locked_disk : Disk
locked_disk =
    set (set (set (λ _. none) "readonly" (some "")) "config.json" (some "old")) "state.json"
      (some "{}")

abbrev free_disk : Disk
free_disk = set locked_disk "readonly" none

failed_run :
    (write_atomically sample_fs "config.json" "new" locked_disk).0 ≡ some (plain "not permitted")
unfolding write_atomically after_mkdir after_create after_write close_temp or_discard chmod_temp
failed_run = refl

write_atomically-Ends_example :
    Ends sample_fs sample_lawful "config.json" "new" locked_disk
      (write_atomically sample_fs "config.json" "new" locked_disk)
write_atomically-Ends_example =
    write_atomically-Ends sample_fs sample_lawful "config.json" "new" locked_disk
