-- ===== src/Handle/ExitCode.antt =====
-- The exit code of a thread, which is kept by thread id.
use learn_docs.Base.{ℕ, ◌≡◌, refl, Bool, [], ◌∷◌, if◌then◌else◌, arith}
use learn_docs.Handle.Types.{Header}
use learn_docs.Handle.Ctx.{put_le, get_le, Fits, put_le-outside, get_le-same, get_le-put_le}
use learn_docs.Handle.Table.{Table}
use learn_docs.Handle.Object.{
  runs, set_thread_exitcode, get_thread_exitcode, update_first, read_first,
}

abbrev pub exited : ℕ → Header → Header
exited code h = record h { ctx = put_le 8 8 code h.ctx }

-- Storing the code leaves the thread id.
pub exited-runs : (tid code : ℕ) (h : Header) → runs tid (exited code h) ≡ runs tid h
exited-runs tid code h = rw (
    get_le-same 8 0 h.ctx (put_le 8 8 code h.ctx)
      (λ a l u. put_le-outside 8 8 code h.ctx a (omega arith)))

read_first-update_first :
    (test : Header → Bool) (f : Header → Header) (read : Header → ℕ) (v : ℕ) (t : Table)
    → ((h : Header) → test (f h) ≡ test h)
    → ((h : Header) → read (f h) ≡ v)
    → read_first test 0 read (update_first test f t).1
      ≡ (if (update_first test f t).0 then v else 0)
unfolding update_first read_first
read_first-update_first test f read v [] same got = refl
read_first-update_first test f read v ((k, h) ∷ t) same got =
    ground (arith, same h, got h, read_first-update_first test f read v t same got)

-- For an exit code of 8 bytes, the code that was set last for a thread id is the one that is
-- read for it; where no thread has the id, nothing is stored and 0 is read.
pub get_thread_exitcode-set :
    (tid code : ℕ) (t : Table)
    → Fits 8 code
    → let (found, t') = set_thread_exitcode tid code t in
      get_thread_exitcode tid t' ≡ (if found then code else 0)
unfolding set_thread_exitcode get_thread_exitcode
get_thread_exitcode-set tid code t f =
    read_first-update_first (runs tid) (exited code) (λ h. get_le 8 8 h.ctx) code t
      (exited-runs tid code) (λ h. get_le-put_le 8 8 code h.ctx f)
