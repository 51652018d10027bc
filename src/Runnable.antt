-- ===== src/Runnable.antt =====
-- src/runnable.h: `class_thread`, a thread that runs while a flag is set.
pub mod Laws
use http_cpp.Base.{
  Text, Bool, true, false, List, [], ◌∷◌, Outcome, ok, throw, terminate, undefined, system_error,
  if◌then◌else◌, Exec, then_exec,
}

pub record ClassThread : Type 0 where
  pub running : Bool
  -- `thread` holds a thread that was not joined.
  pub joinable : Bool

-- The constructor.
abbrev pub class_thread : ClassThread
class_thread = record { running = false; joinable = false }

-- `stop()`: joining no thread throws a `std::system_error`, after the flag was cleared.
unfoldable pub stop : Exec ClassThread (Unit {0})
stop t =
    if t.joinable
    then (ok tt, record { running = false; joinable = false })
    else (throw system_error, record t { running = false })

-- `start()`: a thread that is moved over one that was not joined ends the process.
unfoldable pub start : Exec ClassThread (Unit {0})
start t =
    if t.joinable
    then (terminate, record t { running = true })
    else (ok tt, record { running = true; joinable = true })

-- The destructor catches what `stop` throws, and destroys the member, which ends the process where
-- it was not joined.
abbrev destroyed : Outcome (Unit {0}) × ClassThread → Outcome (Unit {0})
destroyed (ok u, t) = if t.joinable then terminate else ok tt
destroyed (throw e, t) = if t.joinable then terminate else ok tt
destroyed (terminate, t) = terminate
destroyed (undefined, t) = undefined

unfoldable pub destroy : ClassThread → Outcome (Unit {0})
unfolding stop
destroy t = destroyed (stop t)
