-- ===== src/Cluster/Termination.antt =====
-- Every step of the server or of a worker leaves fewer of them to be done.
use http_cpp.Base.{
  ◌≡◌, refl, ap, ◌⊎◌, inl, inr, ◌+◌, ◌<◌, ◌≤◌, arith, List, [], ◌∷◌, ◌++◌, some, length,
  length-append,
}
use native.Mathlib.Decide.{dec_lt}
use http_cpp.Build.{Build}
use http_cpp.HttpService.{Memory}
use http_cpp.HttpServer.HttpWebsite.{HttpWebsite}
use http_cpp.HttpServer.Forward.{Frames, forward_as_req}
use http_cpp.HttpServer.Forward.Laws.{message_frames}
use http_cpp.HttpServer.Run.{forwarded}
use http_cpp.HttpWorker.{answer}
use http_cpp.Cluster.{
  Node, Cluster, Step, arrive, relay_request, answer_request, relay_answer, deliver, pending_at,
  pending_in, pending,
}

pending_in-split :
    (before : List Node) (node : Node) (behind : List Node)
    → pending_in (before ++ (node ∷ behind))
      ≡ pending_in before + pending_at node + pending_in behind
pending_in-split [] node behind = omega arith
pending_in-split (n ∷ before) node behind = omega (arith, pending_in-split before node behind)

pending_at-deliver :
    (frames : Frames) (node : Node) → pending_at (deliver frames node) ≤ pending_at node + 2
pending_at-deliver [] node = omega arith
pending_at-deliver (f ∷ frames) node = omega (arith, length-append node.inbox ((f ∷ frames) ∷ []))

-- A node with something to do.
pub record Busy (nodes : List Node) : Type 0 where
  pub before : List Node
  pub node : Node
  pub behind : List Node
  pub here : nodes ≡ before ++ (node ∷ behind)
  pub work :
      ((request : Frames) × (more : List Frames) × (node.inbox ≡ request ∷ more))
      ⊎ ((answer : Frames) × (more : List Frames) × (node.outbox ≡ answer ∷ more))

pub head_of {ℓ} :
    {A : Type ℓ} (xs : List A) → 0 < length xs → (x : A) × (more : List A) × (xs ≡ x ∷ more)
head_of [] h = absurd (omega arith)
head_of (x ∷ xs) h = (x, xs, refl)

module _ (b : Build) (memory : Memory) (websites_ : List HttpWebsite) where
  -- Any step that is not the arrival of a message leaves fewer steps to be done.
  pub Step-pending :
      {s t : Cluster} → Step b memory websites_ s t → t.arrived ≡ s.arrived → pending t < pending s
  Step-pending {s} (arrive m e) same = absurd (
      omega (
        arith,
        ap length same,
        ap (λ (c : Cluster). length c.arrived) e,
        length-append s.arrived (m ∷ []),
      ))
  Step-pending {s} (relay_request m more before node behind first here e) same =
      rw (e, here, first)
        (omega (
          arith,
          pending_in-split before node behind,
          pending_in-split before
              (deliver (forwarded forward_as_req (some (message_frames m))) node) behind,
          pending_at-deliver (forwarded forward_as_req (some (message_frames m))) node,
        ))
  Step-pending {s} (answer_request request more before node behind answer rest c first here h e)
        same =
      rw (e, here)
        (omega (
          arith,
          pending_in-split before node behind,
          pending_in-split before (record { inbox = more; outbox = node.outbox ++ (answer ∷ []) })
              behind,
          length-append node.outbox (answer ∷ []),
          ap length first,
        ))
  Step-pending {s} (relay_answer answer more before node behind first here e) same =
      rw (e, here)
        (omega (
          arith,
          pending_in-split before node behind,
          pending_in-split before (record node { outbox = more }) behind,
          ap length first,
        ))

pub Busy-pending : (nodes : List Node) → 0 < pending_in nodes → Busy nodes
Busy-pending [] h = absurd (omega arith)
Busy-pending (n ∷ nodes) h = elim (dec_lt 0 (length n.inbox)) [
  | yes some_request ↦ record {
    before = [];
    node = n;
    behind = nodes;
    here = refl;
    work = inl (head_of n.inbox some_request);
  }
  | no none_waits ↦ elim (dec_lt 0 (length n.outbox)) [
    | yes some_answer ↦ record {
      before = [];
      node = n;
      behind = nodes;
      here = refl;
      work = inr (head_of n.outbox some_answer);
    }
    | no idle ↦
        let found = Busy-pending nodes (omega (arith, h)) in
        record {
          before = n ∷ found.before;
          node = found.node;
          behind = found.behind;
          here = ap (λ ns. n ∷ ns) found.here;
          work = found.work;
        }
  ]
]
