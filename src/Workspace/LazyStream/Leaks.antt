-- ===== src/Workspace/LazyStream/Leaks.antt =====
-- The class LazyStream of api/workspace.ts loses no stream, however its factories settle.
use vscode_coder.Base.{
  ℕ, suc, ◌+◌, ◌≡◌, false, Option, none, some, List, [], ◌∷◌, ◌==◌, if◌then◌else◌, is_some, ◌&&◌,
  arith,
}
use vscode_coder.Workspace.LazyStream.{
  Lazy, new_lazy, open_stream, resolved, rejected, close, Event, open_called, close_called,
  factory_resolved, factory_rejected, step, run,
}

abbrev pub count : ℕ → List ℕ → ℕ
count x [] = 0
count x (y ∷ ys) = let rest = count x ys in if y == x then suc rest else rest

abbrev pub count_current : ℕ → Option ℕ → ℕ
count_current x none = 0
count_current x (some y) = if y == x then 1 else 0

pub record Kept (x : ℕ) (s : Lazy) : Type 0 where
  -- a stream is the current one, or has been closed, as often as a factory has given it
  pub accounted : count x s.given ≡ count_current x s.stream + count x s.closed
  pub one_of_two : is_some s.stream && is_some s.opening ≡ false

module _ (x : ℕ) where
  step-Kept : (e : Event) (s : Lazy) → Kept x s → Kept x (step e s)
  unfolding step open_stream resolved rejected close
  step-Kept open_called s k = ground arith
  step-Kept close_called s k = ground arith
  step-Kept (factory_resolved promise stream) s k = ground arith
  step-Kept (factory_rejected promise) s k = ground arith

  run-keeps : (es : List Event) (s : Lazy) → Kept x s → Kept x (run s es)
  unfolding run
  run-keeps [] s k = k
  run-keeps (e ∷ es) s k = run-keeps es (step e s) (step-Kept e s k)

-- After any calls of `open` and `close` and any order in which the factories settle: every stream
-- that a factory has given is the current one or has been closed, exactly once; and there is no
-- current stream while another is being opened.
pub run-Kept : (x : ℕ) (es : List Event) → Kept x (run new_lazy es)
unfolding new_lazy
run-Kept x es = run-keeps x es _ (ground arith)
