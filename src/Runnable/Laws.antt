-- ===== src/Runnable/Laws.antt =====
-- The life of a thread object.
use http_cpp.Base.{◌≡◌, false, ok}
use http_cpp.Runnable.{ClassThread, class_thread, start, stop}

-- What a thread object can become: it is started where it holds no thread, stopped at any time, also
-- where that throws, and its thread clears the flag when it is told to quit.
pub data Reachable : ClassThread → Type 0 where
  constructed : Reachable class_thread
  started : (t : ClassThread) → Reachable t → (start t).0 ≡ ok tt → Reachable (start t).1
  stopped : (t : ClassThread) → Reachable t → Reachable (stop t).1
  quit : (t : ClassThread) → Reachable t → Reachable (record t { running = false })
