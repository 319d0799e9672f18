-- ===== src/Shell/Tries.antt =====
-- The tries of `RemoteCmdExec` of service/common.go to connect to an instance.
use schedulx.Prelude.{ℕ, zero, suc, ◌+◌, ◌*◌, ◌≤◌, ◌<◌, ◌≡◌, refl, String, arith}
use schedulx.Effect.{Error, err, returns, pure, call, attempt, ◌>>=◌}
use schedulx.Env.{Remote}
use schedulx.Shell.{connect, or_retry, sleep}

-- Against a host that never answers, the loop of `k` tries ends with the error of the last one, and
-- has slept 5 seconds after each.
pub connect-gives_up :
    (r : Remote) (k : ℕ) (uname ip pwd : String) (x y : Error) (c : r.Cloud)
    → ((c : r.Cloud) → (r.new_session uname ip pwd c).0 ≡ err y)
    → 0 < k
    → ((connect r k uname ip pwd x c).0 ≡ returns (err y))
      × (r.clock c + 5 * k ≤ r.clock (connect r k uname ip pwd x c).1)
unfolding connect or_retry sleep ◌>>=◌ attempt call pure
connect-gives_up r zero uname ip pwd x y c h k = grind arith
connect-gives_up r (suc zero) uname ip pwd x y c h p = rw (h c) (
  refl,
  omega (arith, r.new_session_law uname ip pwd c, r.sleep_law 5 (r.new_session uname ip pwd c).1),
)
connect-gives_up r (suc (suc k)) uname ip pwd x y c h p =
    let c' = r.sleep 5 (r.new_session uname ip pwd c).1 in
    let rest = connect-gives_up r (suc k) uname ip pwd y y c' h (omega arith) in
    rw (h c) (
      rest.0,
      omega (
        arith,
        rest.1,
        r.new_session_law uname ip pwd c,
        r.sleep_law 5 (r.new_session uname ip pwd c).1,
      ),
    )
