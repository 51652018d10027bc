-- ===== src/Cluster/Drains.antt =====
-- The server can always finish the requests that came.
use http_cpp.Base.{ℕ, ◌≡◌, List, Outcome, ok}
use http_cpp.Build.{Build}
use http_cpp.HttpService.{Memory}
use http_cpp.HttpServer.HttpWebsite.{HttpWebsite}
use http_cpp.HttpServer.Forward.{Frames}
use http_cpp.Cluster.{Cluster, Step, Reachable, pending}
use http_cpp.Cluster.Weights

-- 1 for the end of the process.
abbrev lost : Outcome Frames → ℕ
lost (ok frames) = 0
lost _ = 1

abbrev pub IsReply : Outcome Frames → Type 0
IsReply o = (frames : Frames) × (o ≡ ok frames)

module _ (b : Build) (memory : Memory) (websites_ : List HttpWebsite) where
  -- A step of the server or of a worker.
  abbrev Progress : Cluster → Type 0
  Progress s = (t : Cluster) × Step b memory websites_ s t × (t.arrived ≡ s.arrived)

  -- Some steps that lead to `u`.
  pub data Steps (u : Cluster) : Cluster → Type 0 where
    none_taken : Steps u u
    one_more : {s t : Cluster} → Step b memory websites_ s t → Steps u t → Steps u s

  -- Steps to a state with nothing left to be done, on which no message arrives.
  record Finish (n : ℕ) (s : Cluster) : Type 0 where
    last : Cluster
    steps : Steps last s
    same : last.arrived ≡ s.arrived
    reached : Reachable b memory websites_ n last
    quiet : pending last ≡ 0
