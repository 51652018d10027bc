-- ===== src/Cluster/Conserves.antt =====
-- No answer is lost, made up or sent twice.
use http_cpp.Base.{
  ℕ, ◌≡◌, refl, ap, ◌+◌, arith, List, [], ◌∷◌, ◌++◌, map, Outcome, ok, length, zero, suc, some,
}
use http_cpp.Base.Bag.{total, SameItems, perm_of_SameItems}
use mathlib.Core.List.{Perm}
use native.Mathlib.Decide.{ℕ_discrete}
use http_cpp.Build.{Build}
use http_cpp.HttpProtocolHandler.Laws.{IsCoherent, empty_cache-IsCoherent}
use http_cpp.HttpService.{Memory}
use http_cpp.HttpServer.HttpWebsite.{HttpWebsite}
use http_cpp.HttpServer.Forward.{Frames, forward_as_req}
use http_cpp.HttpServer.Forward.Laws.{Message, message_frames}
use http_cpp.HttpServer.Run.{forwarded}
use http_cpp.Cluster.{
  Node, Cluster, Step, arrive, relay_request, answer_request, relay_answer, Reachable, initial,
  next, deliver, idle_nodes, ready, pending_in, pending,
}
use http_cpp.Cluster.Owed.{relayed_answer, owed_to, owed_in, owed_request, accounted}
use http_cpp.Cluster.Weights
use http_cpp.HttpWorker.Laws.{handle_request-IsCoherent}

module _ (b : Build) (memory : Memory) (websites_ : List HttpWebsite) where
  -- What is known of every state: the cache is coherent, and the answers that were sent and are to
  -- be sent are those that are owed to the messages that came.
  pub record IsBalanced (s : Cluster) : Type 0 where
    pub coherent : IsCoherent s.cache
    pub balanced : SameItems (owed_to b memory websites_ s.arrived) (accounted b memory websites_ s)

  module _ (w : Outcome Frames → ℕ) where
    abbrev all_of : Cluster → ℕ
    all_of = Weights.weigh_all b memory websites_ w

    abbrev messages_of : List Message → ℕ
    messages_of = Weights.weigh_messages b memory websites_ w

    Step-weight :
        {s t : Cluster}
        → Step b memory websites_ s t
        → IsCoherent s.cache
        → all_of t + messages_of s.arrived ≡ all_of s + messages_of t.arrived
    Step-weight {s} (arrive m e) i = rw e (
        omega (
          arith,
          Weights.weigh_messages-snoc b memory websites_ w s.arrived m,
          Weights.weigh_messages-snoc b memory websites_ w s.waiting m,
        ))
    Step-weight {s} (relay_request m more before node behind first here e) i =
        rw (e, here, first)
          (omega (
            arith,
            Weights.weigh_messages-cons b memory websites_ w m more,
            Weights.owed_in-split b memory websites_ w before node behind,
            Weights.owed_in-split b memory websites_ w before
                (deliver (forwarded forward_as_req (some (message_frames m))) node) behind,
            Weights.at_node-delivered b memory websites_ w m node,
          ))
    Step-weight {s} (answer_request request more before node behind answer rest c first here h e)
          i =
        rw (e, here)
          (omega (
            arith,
            Weights.owed_in-split b memory websites_ w before node behind,
            Weights.owed_in-split b memory websites_ w before
                (record { inbox = more; outbox = node.outbox ++ (answer ∷ []) }) behind,
            Weights.answers_of-snoc b memory websites_ w node.outbox answer,
            ap (λ inbox. total w (map (owed_request b memory websites_) inbox)) first,
            ap w (
                Weights.owed_request-answered b memory websites_ request answer rest s.cache c i h),
          ))
    Step-weight {s} (relay_answer answer more before node behind first here e) i =
        rw (e, here)
          (omega (
            arith,
            Weights.owed_in-split b memory websites_ w before node behind,
            Weights.owed_in-split b memory websites_ w before (record node { outbox = more })
                behind,
            Weights.sent-snoc b memory websites_ w s.sent (relayed_answer answer),
            ap (λ outbox. total w (map (λ a. ok (relayed_answer a)) outbox)) first,
          ))

  Step-IsCoherent :
      {s t : Cluster} → Step b memory websites_ s t → IsCoherent s.cache → IsCoherent t.cache
  Step-IsCoherent (arrive m e) i = rw e i
  Step-IsCoherent (relay_request m more before node behind first here e) i = rw e i
  Step-IsCoherent {s} (answer_request request more before node behind answer rest c first here h e)
        i =
      rw e (handle_request-IsCoherent b memory websites_ request rest (ok answer) s.cache c i h)
  Step-IsCoherent (relay_answer answer more before node behind first here e) i = rw e i

  idle_owed :
      (w : Outcome Frames → ℕ) (n : ℕ) → total w (owed_in b memory websites_ (idle_nodes n)) ≡ 0
  idle_owed w zero = refl
  idle_owed w (suc n) = idle_owed w n

  pub Reachable-IsBalanced : {n : ℕ} {s : Cluster} → Reachable b memory websites_ n s → IsBalanced s
  Reachable-IsBalanced {n} initial = record {
    coherent = empty_cache-IsCoherent;
    balanced =
        λ w. omega (arith, idle_owed w n, Weights.weigh-accounted b memory websites_ w (ready n));
  }
  Reachable-IsBalanced (next {s} {t} r step) =
      let i = Reachable-IsBalanced r in
      record {
        coherent = Step-IsCoherent step i.coherent;
        balanced = λ w. omega (
          arith,
          i.balanced w,
          Step-weight w step i.coherent,
          Weights.weigh-accounted b memory websites_ w s,
          Weights.weigh-accounted b memory websites_ w t,
        );
      }

  replies_discrete : Discrete (Outcome Frames)
  replies_discrete = hlevel ℕ_discrete

  no_length {ℓ} : {A : Type ℓ} (xs : List A) → length xs ≡ 0 → xs ≡ []
  no_length [] h = refl
  no_length (x ∷ xs) h = absurd (omega arith)

  nothing_owed :
      (w : Outcome Frames → ℕ) (nodes : List Node)
      → pending_in nodes ≡ 0
      → total w (owed_in b memory websites_ nodes) ≡ 0
  nothing_owed w [] h = refl
  nothing_owed w (node ∷ nodes) h =
      rw
        (
          no_length node.inbox (omega (arith, h)),
          no_length node.outbox (omega (arith, h)),
          nothing_owed w nodes (omega (arith, h)),
        )
        refl

  pub served :
      {n : ℕ} {s : Cluster}
      → Reachable b memory websites_ n s
      → pending s ≡ 0
      → Perm (owed_to b memory websites_ s.arrived) (map ok s.sent)
  served {s} r quiet =
      perm_of_SameItems replies_discrete (owed_to b memory websites_ s.arrived) (map ok s.sent)
        (λ w. omega (
          arith,
          (Reachable-IsBalanced r).balanced w,
          Weights.weigh-accounted b memory websites_ w s,
          nothing_owed w s.nodes (omega (arith, quiet)),
          ap (Weights.weigh_messages b memory websites_ w)
              (no_length s.waiting (omega (arith, quiet))),
        ))
