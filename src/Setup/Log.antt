-- ===== src/Setup/Log.antt =====
-- `ezgrpc2_server_log`, with the thread that writes what is logged.
use Prim.Native.Nat.{bit_and}
use ezgrpc.Prelude.{
  ℕ, ◌+◌, ◌*◌, ◌≤◌, ◌≡◌, inl, inr, refl, sym, subst, Bool, true, false, not, ◌||◌, List, [], ◌∷◌,
  ◌++◌, append_assoc, append-nil, length, if◌then◌else◌, ◌==◌, Bool-cases,
}
use ezgrpc.LogPool
use ezgrpc.LogPool.{thpool_add_task, thpool_new, work}
use ezgrpc.LogPool.Order.{Runs, added}
use ezgrpc.LogPool.Logger.{Logs, work-Logs}
use ezgrpc.Setup.{Whole, server_log, log_new, log_normal}

-- A call of the log: the level and the text.
pub record Line : Type 0 where
  pub log_level : ℕ
  pub text : ℕ

-- Some bit of `a` is set in `b`.
abbrev pub shares_bit : ℕ → ℕ → Bool
shares_bit a b = not (bit_and a b == 0)

unfoldable pub server_logs : List Line → Whole → Whole
server_logs [] w = w
server_logs (l ∷ ls) w = server_logs ls (server_log true true l.log_level l.text w)

-- The lines that are wanted: those that are NORMAL, and those of a level that the settings name.
unfoldable pub wanted : ℕ → List Line → List LogPool.Task
wanted logging_level [] = []
wanted logging_level (l ∷ ls) =
    let rest = wanted logging_level ls in
    if shares_bit l.log_level log_normal || shares_bit l.log_level logging_level
    then log_new l.text ∷ rest
    else rest

-- The settings and the state of `stop` stay.
pub record Logged (a : List LogPool.Task) (level : ℕ) (w : Whole) : Type 0 where
  pub k : List LogPool.Task
  pub runs : Runs 1 a k w.logger_thread
  pub going : w.logger_thread.shared.stop ≡ false
  pub level_is : w.server_settings.logging_level ≡ level

abbrev is_wanted : ℕ → ℕ → Bool
is_wanted logging_level log_level =
    shares_bit log_level log_normal || shares_bit log_level logging_level

-- The server with the task of a text behind the others.
abbrev with_text : ℕ → Whole → Whole
with_text text w = record w {
  logger_thread = (thpool_add_task true true (log_new text) w.logger_thread).0;
}

module _ (w : Whole) (l : Line) where
  server_log_wanted :
      is_wanted w.server_settings.logging_level l.log_level ≡ true
      → server_log true true l.log_level l.text w ≡ with_text l.text w
  unfolding server_log
  server_log_wanted e = simp e

  server_log_unwanted :
      is_wanted w.server_settings.logging_level l.log_level ≡ false
      → server_log true true l.log_level l.text w ≡ w
  unfolding server_log
  server_log_unwanted e = simp e

  module _ (level : ℕ) (a : List LogPool.Task) (is : Logged a level w) where
    log_wanted :
        is_wanted level l.log_level ≡ true
        → Logged (a ++ log_new l.text ∷ []) level (server_log true true l.log_level l.text w)
    unfolding thpool_add_task
    log_wanted e =
        let e' = subst (λ n. is_wanted n l.log_level ≡ true) (sym is.level_is) e in
        rw (server_log_wanted e') (record {
          k = is.k;
          runs = added (log_new l.text) is.runs;
          going = is.going;
          level_is = is.level_is;
        })

    log_unwanted :
        is_wanted level l.log_level ≡ false
        → Logged a level (server_log true true l.log_level l.text w)
    log_unwanted e =
        let e' = subst (λ n. is_wanted n l.log_level ≡ false) (sym is.level_is) e in
        rw (server_log_unwanted e') is

server_logs-Logged :
    (ls : List Line) (level : ℕ) (w : Whole) (a : List LogPool.Task)
    → Logged a level w
    → Logged (a ++ wanted level ls) level (server_logs ls w)
unfolding server_logs wanted
server_logs-Logged [] level w a is = rw (append-nil a) is
server_logs-Logged (l ∷ ls) level w a is = elim (Bool-cases (is_wanted level l.log_level)) [
  | inl e ↦
      let r =
        server_logs-Logged ls level (server_log true true l.log_level l.text w)
          (a ++ log_new l.text ∷ []) (log_wanted w l level a is e) in
      rw (e, wanted)
        (subst (λ b. Logged b level (server_logs (l ∷ ls) w))
          (append_assoc a (log_new l.text ∷ []) (wanted level ls)) r)
  | inr e ↦
      rw (e, wanted)
        (server_logs-Logged ls level (server_log true true l.log_level l.text w) a
          (log_unwanted w l level a is e))
]

-- Of the lines that are logged, in any number, those are written whose level has the bit NORMAL or a
-- bit of the level of the settings, all of them, in the order in which they were logged and behind
-- those that were asked for before, once the logger's thread has gone on for long enough. There is
-- room for the tasks, and the logger was not stopped.
pub server_logs-Logs :
    (ls : List Line) (w : Whole) (a k : List LogPool.Task)
    → Runs 1 a k w.logger_thread
    → w.logger_thread.shared.stop ≡ false
    → (fuel : ℕ) → 3 + 2 * length (server_logs ls w).logger_thread.shared.queue ≤ fuel
    → Logs
        (a ++ wanted w.server_settings.logging_level ls)
        (work fuel 0 (server_logs ls w).logger_thread)
server_logs-Logs ls w a k r go fuel enough =
    let is =
      server_logs-Logged ls w.server_settings.logging_level w a
        (record { k = k; runs = r; going = go; level_is = refl }) in
    work-Logs is.runs is.going fuel enough
