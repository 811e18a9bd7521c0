-- ===== src/Command/Paths.antt =====
-- The log files of the processes on one machine.
use snowcast.Prelude.{
  ℕ, ◌≡◌, ◌≢◌, sym, ap, ◌∙◌, Text, codes, Bool, true, false, Option, none, some, List, [], ◌∷◌,
  ◌++◌, if◌then◌else◌, arith, decimal, decimal-cons, decimal-injective, all_decimal-decimal,
  all_decimal, text_eq,
}
use mathlib.Core.List.{append_cancel_left, append_cancel_right}
use snowcast.Command.Launch.{
  ServerFlags, BackupFlags, Launch, default_wal_path, default_backup_wal_path, server_main,
  server_launch, backup_launch, or_path, backup_main,
}

head_of : {x y : ℕ} {xs ys : Text} → x ∷ xs ≡ y ∷ ys → x ≡ y
head_of {x} e = ap (λ t. elim t [ [] ↦ x | c ∷ cs ↦ c ]) e

-- No digit is the `b` of `backup`.
decimal-apart : (n : ℕ) (rest other : Text) → decimal n ++ rest ≢ 98 ∷ other
decimal-apart n rest other e =
    let (c, cs, cons) = decimal-cons n in
    let digits = sym (ap all_decimal cons) ∙ all_decimal-decimal n in
    ground (arith, digits, head_of (sym (ap (λ t. t ++ rest) cons) ∙ e))

behind_dir :
    (temp_dir : Text) {s t : Text}
    → temp_dir ++ 47 ∷ (codes "snowcast-" ++ s) ≡ temp_dir ++ 47 ∷ (codes "snowcast-" ++ t)
    → s ≡ t
behind_dir temp_dir {s} {t} e =
    append_cancel_left (47 ∷ codes "snowcast-") s t (append_cancel_left temp_dir _ _ e)

default_paths-apart :
    (temp_dir : Text) (port repl_port : ℕ)
    → default_wal_path temp_dir (decimal port)
      ≢ default_backup_wal_path temp_dir (decimal repl_port)
unfolding default_wal_path default_backup_wal_path
default_paths-apart temp_dir port repl_port e =
    decimal-apart port (codes ".wal") (codes "ackup-" ++ (decimal repl_port ++ codes ".wal"))
      (behind_dir temp_dir e)

pub default_wal_path-injective :
    (temp_dir : Text) (port other : ℕ)
    → default_wal_path temp_dir (decimal port) ≡ default_wal_path temp_dir (decimal other)
    → port ≡ other
unfolding default_wal_path
default_wal_path-injective temp_dir port other e =
    decimal-injective port other
      (append_cancel_right (decimal port) (decimal other) (codes ".wal") (behind_dir temp_dir e))

if-some :
    {A : Type 0} (b : Bool) (x : Option A) {a : A} → (if b then none else x) ≡ some a → x ≡ some a
if-some true x e = absurd (ground (arith, e))
if-some false x e = e

abbrev path_of : Option Launch → Text
path_of none = []
path_of (some l) = l.wal_path

or_path-unset : (path default_path : Text) → path ≡ [] → or_path path default_path ≡ default_path
unfolding text_eq
or_path-unset path default_path unset = ap (λ t. or_path t default_path) unset

server_main-path :
    (temp_dir : Text) (flags : ServerFlags) (port : Text) (files : List Text) (l : Launch)
    → flags.wal_path ≡ []
    → server_main temp_dir flags (port ∷ files) ≡ some l
    → l.wal_path ≡ default_wal_path temp_dir port
unfolding server_main
server_main-path temp_dir flags port [] l unset e =
    absurd (ground (arith, if-some _ (server_launch temp_dir flags (port ∷ [])) e))
server_main-path temp_dir flags port (file ∷ files) l unset e =
    sym (ap path_of (if-some _ (server_launch temp_dir flags (port ∷ file ∷ files)) e))
    ∙ or_path-unset flags.wal_path (default_wal_path temp_dir port) unset

backup_main-path :
    (temp_dir : Text) (flags : BackupFlags) (files : List Text) (l : Launch)
    → flags.wal_path ≡ []
    → backup_main temp_dir flags files ≡ some l
    → l.wal_path ≡ default_backup_wal_path temp_dir flags.repl_port
unfolding backup_main
backup_main-path temp_dir flags [] l unset e =
    absurd (ground (arith, if-some _ (backup_launch temp_dir flags []) e))
backup_main-path temp_dir flags (file ∷ files) l unset e =
    sym (ap path_of (if-some _ (backup_launch temp_dir flags (file ∷ files)) e))
    ∙ or_path-unset flags.wal_path (default_backup_wal_path temp_dir flags.repl_port) unset

-- A server and a backup on one machine that are given no log file and whose ports are numbers do not
-- write to the same one.
pub server_main-backup_main :
    (temp_dir : Text) (flags : ServerFlags) (backup_flags : BackupFlags) (port repl_port : ℕ)
    (files backup_files : List Text) (l k : Launch)
    → flags.wal_path ≡ []
    → backup_flags.wal_path ≡ []
    → backup_flags.repl_port ≡ decimal repl_port
    → server_main temp_dir flags (decimal port ∷ files) ≡ some l
    → backup_main temp_dir backup_flags backup_files ≡ some k
    → l.wal_path ≢ k.wal_path
server_main-backup_main temp_dir flags backup_flags port repl_port files backup_files l k unset
      backup_unset number launched backup_launched e =
    default_paths-apart temp_dir port repl_port (
      sym (server_main-path temp_dir flags (decimal port) files l unset launched)
      ∙ e
      ∙ backup_main-path temp_dir backup_flags backup_files k backup_unset backup_launched
      ∙ ap (default_backup_wal_path temp_dir) number)
