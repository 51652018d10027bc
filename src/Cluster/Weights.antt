-- ===== src/Cluster/Weights.antt =====
-- The owed answers under any weight of theirs: what each step changes.
use http_cpp.Base.{
  ℕ, ◌≡◌, refl, ap, ◌∙◌, ◌+◌, arith, Text, List, [], ◌∷◌, ◌++◌, map, Option, none, some, Outcome,
  ok, throw, terminate, undefined, ◌>>=◌, Option-cases, inl, inr, is_empty, if◌then◌else◌,
}
use http_cpp.Base.Bag.{total, total-append}
use http_cpp.Build.{Build}
use http_cpp.HttpProtocolHandler.{HandlerCache}
use http_cpp.HttpProtocolHandler.Laws.{IsCoherent}
use http_cpp.HttpService.{Memory}
use http_cpp.HttpServer.HttpWebsite.{HttpWebsite}
use http_cpp.HttpServer.Forward.{
  Frame, Frames, receive_parts, receive_message, forward_as_req, as_req,
}
use http_cpp.HttpServer.Forward.Laws.{Message, message_frames, joined}
use http_cpp.HttpServer.Run.{forwarded}
use http_cpp.HttpServer.RunLaws.{forwarded-req}
use http_cpp.HttpWorker.{handle_request}
use http_cpp.HttpWorker.Uncached.{plain_answer, answer-uncached}
use http_cpp.Cluster.{Node, Cluster, deliver}
use http_cpp.Cluster.Owed.{
  relayed_answer, reply_to, owed_to, owed_request, owed_at, owed_in, accounted,
}

module _ (b : Build) (memory : Memory) (websites_ : List HttpWebsite) where
  abbrev result_of : Option (Outcome Frames × Frames × HandlerCache) → Outcome Frames
  result_of none = undefined
  result_of (some (o, rest, c)) = o

  replied-ok :
      (id : Text) (sent : Frames) (o : Outcome Text)
      → (o >>= λ text. ok (as_req id text)) ≡ ok sent
      → (o >>= λ text. ok (relayed_answer (as_req id text))) ≡ ok (relayed_answer sent)
  replied-ok id sent (ok text) e = cc
  replied-ok id sent (throw x) e = cc
  replied-ok id sent terminate e = cc
  replied-ok id sent undefined e = cc

  owed_request-read :
      (id : Frame) (waiting rest : Frames) (frame : Text)
      → receive_parts [] waiting ≡ some (frame, rest)
      → owed_request b memory websites_ (id ∷ waiting) ≡ reply_to b memory websites_ id.body frame
  unfolding owed_request receive_message
  owed_request-read id waiting rest frame found = rw (found, receive_message) refl

  -- A worker gives the answer that is owed.
  pub owed_request-answered :
      (request sent rest : Frames) (c c' : HandlerCache)
      → IsCoherent c
      → handle_request b memory websites_ request c ≡ some (ok sent, rest, c')
      → owed_request b memory websites_ request ≡ ok (relayed_answer sent)
  unfolding handle_request reply_to
  owed_request-answered [] sent rest c c' i e = cc
  owed_request-answered (id ∷ waiting) sent rest c c' i e =
      elim (Option-cases (receive_parts [] waiting)) [
        | inl missing ↦ let lost = rw (missing, handle_request) at e in cc
        | inr ((frame, left), found) ↦
            let answered = rw (found, handle_request) at e in
            let text = rw (answer-uncached b memory websites_ frame c i) at answered in
            owed_request-read id waiting left frame found
            ∙ replied-ok id.body sent (plain_answer b memory websites_ frame) (ap result_of text)
      ]

  module _ (w : Outcome Frames → ℕ) where
    abbrev pub weigh : List (Outcome Frames) → ℕ
    weigh = total w

    abbrev pub owed_of : Node → List (Outcome Frames)
    owed_of = owed_at b memory websites_

    abbrev pub owed_of_all : List Node → List (Outcome Frames)
    owed_of_all = owed_in b memory websites_

    abbrev pub requests_of : List Frames → List (Outcome Frames)
    requests_of = map (owed_request b memory websites_)

    abbrev pub answers_of : List Frames → List (Outcome Frames)
    answers_of = map (λ answer. ok (relayed_answer answer))

    pub owed_in-split :
        (before : List Node) (node : Node) (after : List Node)
        → weigh (owed_of_all (before ++ (node ∷ after)))
          ≡ weigh (owed_of_all before)
            + (weigh (requests_of node.inbox) + weigh (answers_of node.outbox))
            + weigh (owed_of_all after)
    owed_in-split [] node after = omega (
      arith,
      total-append w (owed_of node) (owed_of_all after),
      total-append w (requests_of node.inbox) (answers_of node.outbox),
    )
    owed_in-split (n ∷ before) node after = omega (
      arith,
      owed_in-split before node after,
      total-append w (owed_of n) (owed_of_all before),
      total-append w (owed_of n) (owed_of_all (before ++ (node ∷ after))),
    )

    pub requests_of-snoc :
        (inbox : List Frames) (f : Frames)
        → weigh (requests_of (inbox ++ (f ∷ [])))
          ≡ weigh (requests_of inbox) + w (owed_request b memory websites_ f)
    requests_of-snoc [] f = omega arith
    requests_of-snoc (g ∷ inbox) f = omega (arith, requests_of-snoc inbox f)

    pub answers_of-snoc :
        (outbox : List Frames) (f : Frames)
        → weigh (answers_of (outbox ++ (f ∷ [])))
          ≡ weigh (answers_of outbox) + w (ok (relayed_answer f))
    answers_of-snoc [] f = omega arith
    answers_of-snoc (g ∷ outbox) f = omega (arith, answers_of-snoc outbox f)

    pub sent-snoc :
        (sent : List Frames) (f : Frames)
        → weigh (map ok (sent ++ (f ∷ []))) ≡ weigh (map ok sent) + w (ok f)
    sent-snoc [] f = omega arith
    sent-snoc (g ∷ sent) f = omega (arith, sent-snoc sent f)

    -- The weight of what a node owes.
    abbrev pub at_node : Node → ℕ
    at_node node = weigh (requests_of node.inbox) + weigh (answers_of node.outbox)

    pub at_node-received :
        (id text : Text) (node : Node)
        → at_node (deliver (if is_empty text then [] else as_req id text) node)
          ≡ at_node node
            + weigh (if is_empty text then [] else reply_to b memory websites_ id text ∷ [])
    unfolding owed_request receive_message receive_parts
    at_node-received id [] node = omega arith
    at_node-received id (c ∷ text) node =
        omega (arith, requests_of-snoc node.inbox (as_req id (c ∷ text)))

    abbrev pub weigh_messages : List Message → ℕ
    weigh_messages ms = weigh (owed_to b memory websites_ ms)

    pub weigh_messages-cons :
        (m : Message) (ms : List Message)
        → weigh_messages (m ∷ ms) ≡ weigh_messages (m ∷ []) + weigh_messages ms
    weigh_messages-cons m ms = ground (arith, is_empty (joined m.parts m.last))

    pub weigh_messages-snoc :
        (ms : List Message) (m : Message)
        → weigh_messages (ms ++ (m ∷ [])) ≡ weigh_messages ms + weigh_messages (m ∷ [])
    weigh_messages-snoc [] m = omega arith
    weigh_messages-snoc (n ∷ ms) m = omega (
      arith,
      weigh_messages-snoc ms m,
      weigh_messages-cons n ms,
      weigh_messages-cons n (ms ++ (m ∷ [])),
    )

    -- The weight of all that was sent and is to be sent.
    abbrev pub weigh_all : Cluster → ℕ
    weigh_all s = weigh_messages s.waiting + weigh (owed_of_all s.nodes) + weigh (map ok s.sent)

    pub weigh-accounted : (s : Cluster) → weigh (accounted b memory websites_ s) ≡ weigh_all s
    weigh-accounted s = omega (
      arith,
      total-append w (owed_to b memory websites_ s.waiting) (owed_of_all s.nodes ++ map ok s.sent),
      total-append w (owed_of_all s.nodes) (map ok s.sent),
    )

    pub at_node-delivered :
        (m : Message) (node : Node)
        → at_node (deliver (forwarded forward_as_req (some (message_frames m))) node)
          ≡ at_node node + weigh_messages (m ∷ [])
    at_node-delivered m node = rw (forwarded-req (some m)) (
        omega (
          arith,
          at_node-received m.id (joined m.parts m.last) node,
          total-append w
              (if is_empty (joined m.parts m.last)
                then []
                else reply_to b memory websites_ m.id (joined m.parts m.last) ∷ [])
              [],
        ))
