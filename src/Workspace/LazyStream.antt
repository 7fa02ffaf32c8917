-- ===== src/Workspace/LazyStream.antt =====
-- The class LazyStream of api/workspace.ts. A promise is named by the number of promises made before
-- it, a stream by the number the factory gives it; factories settle in any order.
pub mod Leaks
use vscode_coder.Base.{
  ℕ, suc, Bool, true, false, Option, none, some, List, [], ◌∷◌, ◌==◌, if◌then◌else◌, is_some,
  without, has,
}

pub record Lazy : Type 0 where
  pub stream : Option ℕ
  pub opening : Option ℕ
  -- the factories still running, by promise, and the number of promises made
  pub running : List ℕ
  pub made : ℕ
  -- the streams the factories gave, and those that have been closed
  pub given : List ℕ
  pub closed : List ℕ

unfoldable pub new_lazy : Lazy
new_lazy = record { stream = none; opening = none; running = []; made = 0; given = []; closed = [] }

-- `open`, up to the `await`
unfoldable pub open_stream : Lazy → Lazy
open_stream s = elim s.stream [
  | some stream ↦ s
  | none ↦ elim s.opening [
    | some promise ↦ s
    | none ↦ record s { opening = some s.made; running = s.made ∷ s.running; made = suc s.made }
  ]
]

abbrev is_opening : Option ℕ → ℕ → Bool
is_opening none promise = false
is_opening (some p) promise = p == promise

-- The factory of a promise gives a stream: the `then` of `open`.
unfoldable pub resolved : (promise stream : ℕ) → Lazy → Lazy
resolved promise stream s =
    let t : Lazy = record s { running = without s.running promise; given = stream ∷ s.given } in
    if has s.running promise
    then (if is_opening s.opening promise
        then record t { stream = some stream; opening = none }
        else record t { closed = stream ∷ s.closed })
    else s

-- The factory of a promise throws: nothing resets `opening`.
unfoldable pub rejected : (promise : ℕ) → Lazy → Lazy
rejected promise s = record s { running = without s.running promise }

abbrev close_current : Option ℕ → List ℕ → List ℕ
close_current none closed = closed
close_current (some stream) closed = stream ∷ closed

unfoldable pub close : Lazy → Lazy
close s = record s { stream = none; opening = none; closed = close_current s.stream s.closed }

-- how the factory of a promise settles
abbrev pub await_factory : (given : Option ℕ) → (promise : ℕ) → Lazy → Lazy × Bool
await_factory none promise s = (rejected promise s, false)
await_factory (some stream) promise s = (resolved promise stream s, true)

-- What an `await open(factory)` leaves when nothing closes the stream meanwhile: the factory gives
-- a stream, or throws, or an earlier call has opened one already; and whether it returns. A promise
-- whose factory threw earlier, and that nothing has reset, is awaited again and throws again.
unfoldable pub open_and_wait : (given : Option ℕ) → Lazy → Lazy × Bool
open_and_wait given s = elim s.stream [
  | some stream ↦ (s, true)
  | none ↦ elim (open_stream s).opening [
    | none ↦ (open_stream s, true)
    | some promise ↦
        if has (open_stream s).running promise
        then await_factory given promise (open_stream s)
        else (open_stream s, false)
  ]
]

pub data Event : Type 0 where
  open_called close_called : Event
  factory_resolved : (promise stream : ℕ) → Event
  factory_rejected : (promise : ℕ) → Event

unfoldable pub step : Event → Lazy → Lazy
step open_called s = open_stream s
step close_called s = close s
step (factory_resolved promise stream) s = resolved promise stream s
step (factory_rejected promise) s = rejected promise s

unfoldable pub run : Lazy → List Event → Lazy
run s [] = s
run s (e ∷ es) = run (step e s) es
