-- ===== src/Shell.antt =====
-- service/common.go: `RemoteCmdExec` over pkg/goph. The result holds the output beside the error.
pub mod Tries
use schedulx.Prelude.{ℕ, zero, suc, String, Option, some}
use schedulx.Effect.{Error, new_error, Result, ok, err, Exec, pure, call, ◌>>=◌, attempt}
use schedulx.Env.{Remote}
use schedulx.Tool.Text.{trim_space}

module _ (r : Remote) where
  unfoldable pub sleep : ℕ → Exec r.Cloud (Unit {0})
  sleep n = call (λ c. (ok tt, r.sleep n c))

  -- What follows a try to connect: a pause and the next try, or the session.
  unfoldable pub or_retry :
      (Error → Exec r.Cloud (Result r.Session)) → Result r.Session → Exec r.Cloud (Result r.Session)
  unfolding sleep
  or_retry next (ok session) = pure (ok session)
  or_retry next (err e) = sleep 5 >>= λ _. next e

  -- The loop over `errCnt`, by the tries that are left; `last` is `err`.
  unfoldable pub connect : ℕ → String → String → String → Error → Exec r.Cloud (Result r.Session)
  unfolding or_retry ◌>>=◌ attempt
  connect zero uname ip pwd last = pure (err last)
  connect (suc k) uname ip pwd last =
      attempt (call (r.new_session uname ip pwd)) >>= or_retry (connect k uname ip pwd)

  unfoldable pub run_in : String → Result r.Session → Exec r.Cloud (String × Option Error)
  run_in cmd (err e) = pure ("", some e)
  run_in cmd (ok session) = call (λ c. let (answer, c') = r.run session cmd c in (ok answer, c'))

  unfoldable pub remote_cmd_exec :
      String → String → String → String → Exec r.Cloud (String × Option Error)
  unfolding connect run_in ◌>>=◌
  remote_cmd_exec cmd ip uname pwd = do
    session ← connect 3 (trim_space uname) ip (trim_space pwd) (new_error "")
    run_in cmd session
