-- ===== src/AsyncBridge.antt =====
-- src/model_dispatcher/_async_bridge.py: a coroutine driven to its end from synchronous code. What
-- asyncio and threading do is a parameter.
use model_dispatcher.Prelude.{◌≡◌, refl, inl, inr, Bool, List, [], ◌∷◌, if◌then◌else◌, Bool-cases}
use model_dispatcher.Errors.{Exn, Res, ok, raised, index_error}

-- A coroutine, as what it does until it returns or raises.
abbrev pub Coroutine : Type 0 → Type 0 → Type 0
Coroutine S A = S → Res A × S

-- `asyncio.run`, whether a loop runs in the current thread, and what starting and joining a thread
-- comes to.
pub record AsyncRuntime (S : Type 0) (A : Type 0) : Type 0 where
  pub run : Coroutine S A → S → Res A × S
  pub loop_running : S → Bool
  pub in_thread : (S → (List A × List Exn) × S) → S → (List A × List Exn) × S

module _ {S A : Type 0} (runtime : AsyncRuntime S A) where
  -- The lists `result` and `error` that `_worker` leaves.
  worker : Coroutine S A → S → (List A × List Exn) × S
  worker coro s = elim (runtime.run coro s).0 [
    | ok a ↦ ((a ∷ [], []), (runtime.run coro s).1)
    | raised e ↦ (([], e ∷ []), (runtime.run coro s).1)
  ]

  -- `if error: raise error[0]` and `return result[0]`
  first_result : (List A × List Exn) × S → Res A × S
  first_result ((result, e ∷ _), s) = (raised e, s)
  first_result ((a ∷ _, []), s) = (ok a, s)
  first_result (([], []), s) = (raised (index_error 0), s)

  -- `run_sync`
  pub run_sync : Coroutine S A → S → Res A × S
  unfolding worker first_result
  run_sync coro s =
      if runtime.loop_running s
      then first_result (runtime.in_thread (worker coro) s)
      else runtime.run coro s

  -- Where a thread that is started and joined has done what its function does, `run_sync` does the
  -- same inside a running loop and outside: it returns or raises what `asyncio.run` of the
  -- coroutine does, and never misses the result.
  pub run_sync_lem :
      ((task : S → (List A × List Exn) × S) (s : S) → runtime.in_thread task s ≡ task s)
      → (coro : Coroutine S A) (s : S) → run_sync coro s ≡ runtime.run coro s
  unfolding run_sync
  run_sync_lem joined coro s = elim (Bool-cases (runtime.loop_running s)) [
    | inl inside ↦ rw (inside, joined (worker coro) s) (go (runtime.run coro s))
    | inr outside ↦ rw outside refl
  ]
    where
      go :
          (r : Res A × S)
          → first_result (elim r.0 [ ok a ↦ ((a ∷ [], []), r.1) | raised e ↦ (([], e ∷ []), r.1) ])
            ≡ r
      go (ok a, s') = refl
      go (raised e, s') = refl
