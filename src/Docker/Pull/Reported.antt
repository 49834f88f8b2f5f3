-- ===== src/Docker/Pull/Reported.antt =====
-- What a pull of a whole image writes to the response: pull_routine of
-- plugins/beiran_interface_docker/api.py.
use beiran.Base.{All, Bool, Bool-cases, List, Option, Option-cases, Text, [], ap, append_assoc}
use beiran.Base.{arith, codes, false, if◌then◌else◌, inl, inr, is_nil, length, ltb, map, none}
use beiran.Base.{refl, some, suc, take, true, zero, ℕ, ◌*◌, ◌++◌, ◌+◌, ◌∙◌, ◌∷◌, ◌≡◌, ◌≤◌}
use beiran.Docker.Pull.{
  Cluster, Image, Import, Pulled, Request, Response, Sender, Stream, begin, broken,
}
use beiran.Docker.Pull.{choose_node, close_progress, conclude, done_item, ended, failed, find_node}
use beiran.Docker.Pull.{
  finish, http_error, imported, is_reported, no_response, opening, progress_item,
}
use beiran.Docker.Pull.{
  pull_at, pull_from, pull_image, pull_routine, pulled, read_of, refused, sender,
}
use beiran.Docker.Pull.{stream, stream_error, target, whole, write}
use beiran.Nodes.{Node, NodeTable}

-- The members of the list of progresses.
abbrev pub items : List ℕ → Text
items [] = []
items (p ∷ ps) = progress_item p ++ items ps

-- Each is a percentage, and above the one before it by more than five.
abbrev pub Climbs : ℕ → List ℕ → Type 0
Climbs last [] = Unit
Climbs last (p ∷ ps) = (last + 6 ≤ p) × (p ≤ 100) × Climbs p ps

Climbs-length : (last : ℕ) (ps : List ℕ) → last ≤ 100 → Climbs last ps → last + length ps * 6 ≤ 100
Climbs-length last [] h c = omega arith
Climbs-length last (p ∷ ps) h c = omega (arith, Climbs-length p ps c.1 c.2)

-- A response that has been begun.
abbrev begun : Text → Response
begun body = record { body = body; finished = false; misused = false }

abbrev pub closed : Text → Response
closed body = record { body = body; finished = true; misused = false }

abbrev IsTotal : (ℕ → Option ℕ) → Type 0
IsTotal percent = (m : ℕ) → (n : ℕ) × (percent m ≡ some n)

module _ (percent : ℕ → Option ℕ) (total : IsTotal percent) where
  -- What is reported from here on, the last progress, and the end.
  abbrev Reports : ℕ → Text → Response × Sender → Type 0
  Reports last body out =
      (ps : List ℕ) × (n : ℕ) × (out
        ≡ (closed (body ++ (items ps ++ (done_item n ++ codes "]}"))), ended))
      × Climbs last ps
      × (n ≤ 100)

  close-Reports :
      (last progress : ℕ) (body : Text)
      → progress ≤ 100
      → Reports last body (close_progress true progress (begun body), ended)
  unfolding close_progress write finish
  close-Reports last progress body h = (
    [],
    progress,
    ap (λ t. (closed t, ended)) (append_assoc body (done_item progress) (codes "]}")),
    tt,
    h,
  )

  -- One more chunk, which leads to the progress `now`.
  report-Reports :
      (now last : ℕ) (body : Text) (rest : ℕ → Response → Response × Sender)
      → now ≤ 100
      → ((last' : ℕ) (body' : Text) → Reports last' body' (rest last' (begun body')))
      → Reports last body (
          rest (if is_reported percent true now last then now else last) (
            if is_reported percent true now last
            then write (progress_item now) (begun body)
            else begun body))
  unfolding write
  report-Reports now last body rest h goes = elim (Bool-cases (is_reported percent true now last)) [
    | inl e ↦
        let (ps, n, out, climbs, small) = goes now (body ++ progress_item now) in
        let rise : last + 6 ≤ now = unfold is_reported in ground arith in
        let joined : (body ++ progress_item now) ++ (items ps ++ (done_item n ++ codes "]}"))
            ≡ body ++ (items (now ∷ ps) ++ (done_item n ++ codes "]}")) =
          simp append_assoc in
        rw (e) (now ∷ ps, n, out ∙ ap (λ t. (closed t, ended)) joined, (rise, h, climbs), small)
    | inr e ↦ rw (e) (goes last body)
  ]

  sender-Reports :
      (chunks : List Text) (real progress last : ℕ) (body : Text)
      → progress ≤ 100
      → Reports last body
          (sender percent true (map some chunks ++ (none ∷ [])) real progress last (begun body))
  unfolding sender
  sender-Reports [] real progress last body h = close-Reports last progress body h
  sender-Reports ([] ∷ chunks) real progress last body h = close-Reports last progress body h
  sender-Reports ((c ∷ chunk) ∷ chunks) real progress last body h =
      let size : ℕ = real + length (c ∷ chunk) in
      let (m, e) = total size in
      let now : ℕ = if ltb 100 m then 100 else m in
      let small : now ≤ 100 = ground arith in
      rw (e, sender)
        (report-Reports now last body
          (λ last' r. sender percent true (map some chunks ++ (none ∷ [])) size now last' r) small
          (λ last' body'. sender-Reports chunks size now last' body' small))

  sender-silent :
      (chunks : List Text) (real progress last : ℕ) (r : Response)
      → sender percent false (map some chunks ++ (none ∷ [])) real progress last r ≡ (r, ended)
  unfolding sender close_progress is_reported
  sender-silent [] real progress last r = refl
  sender-silent ([] ∷ chunks) real progress last r = refl
  sender-silent ((c ∷ chunk) ∷ chunks) real progress last r =
      let size : ℕ = real + length (c ∷ chunk) in
      let (m, e) = total size in
      let now : ℕ = if ltb 100 m then 100 else m in
      rw (e, sender) (sender-silent chunks size now last r)

-- The response to a request, with the progresses that are reported.
abbrev pub response_body : Request → List ℕ → ℕ → Text
response_body q ps last =
    if q.show_progress
    then opening q.image_identifier ++ (items ps ++ (done_item last ++ codes "]}"))
    else if q.wait
    then codes "{\"finished\": true}"
    else codes "{\"started\": true}"

abbrev IsAnswered : Request → Image → Response × Pulled → Type 0
IsAnswered q image out =
    (ps : List ℕ) × (last : ℕ) × (out ≡ (closed (response_body q ps last), pulled image.hash_id))
    × Climbs 0 ps
    × (length ps ≤ 16)
    × (last ≤ 100)

stream-IsAnswered :
    (q : Request) (image : Image) (chunks : List Text)
    → IsTotal image.percent
    → IsAnswered q image (stream q image imported (whole chunks))
unfolding stream begin read_of conclude write finish
stream-IsAnswered q image chunks total = elim (Bool-cases q.show_progress) [
  | inl shown ↦
      let (ps, n, out, climbs, small) =
        sender-Reports image.percent total chunks 0 0 0 (opening q.image_identifier)
          (omega arith) in
      let few : length ps ≤ 16 = omega (arith, Climbs-length 0 ps (omega arith) climbs) in
      (
        ps,
        n,
        elim (Bool-cases q.wait) [
          | inl waits ↦ rw (shown, waits, out) refl
          | inr idle ↦ rw (shown, idle, out) refl
        ],
        climbs,
        few,
        small,
      )
  | inr hidden ↦ elim (Bool-cases q.wait) [
    | inl waits ↦
        let out = sender-silent image.percent total chunks 0 0 0 no_response in
        ([], 0, rw (hidden, waits, out) refl, tt, omega arith, omega arith)
    | inr started ↦
        let out =
          sender-silent image.percent total chunks 0 0 0 (closed (codes "{\"started\": true}")) in
        ([], 0, rw (hidden, started, out) refl, tt, omega arith, omega arith)
  ]
]

-- A pull of a whole image that is in the table, from a node that is found and sends the image to its
-- end, gives the image if docker imports it; the response is finished once and not used after that. With progress it is
-- the object of the image and of the progresses that are reported, which are sixteen at most besides
-- the last one, each at most 100 and above the one before by more than five; without progress it says
-- that the pull is finished if the request is to wait, and that it has started if not. The size of
-- the image can be divided by.
pub pull_routine-IsAnswered :
    {T : NodeTable} (C : Cluster T) (q : Request) (image : Image) (node_identifier : Text)
    (node : Node) (chunks : List Text)
    → IsTotal image.percent
    → choose_node C q.image_identifier q.node_identifier ≡ some node_identifier
    → C.image_data q.image_identifier ≡ some image
    → find_node C q.force node_identifier ≡ target node
    → C.streams node q.image_identifier ≡ whole chunks
    → C.docker ≡ imported
    → (ps : List ℕ) × (last : ℕ) × (pull_routine C q
        ≡ (closed (response_body q ps last), pulled image.hash_id))
      × Climbs 0 ps
      × (length ps ≤ 16)
      × (last ≤ 100)
unfolding pull_routine pull_at pull_image pull_from
pull_routine-IsAnswered C q image node_identifier node chunks total e f g h d =
    rw (e, pull_at)
      (rw (f, pull_image) (rw (g, pull_from) (rw (h, d) (stream-IsAnswered q image chunks total))))

take-map :
    (n : ℕ) (chunks : List Text)
    → take n (map (λ c. some c) chunks) ≡ map (λ c. some c) (take n chunks)
take-map zero chunks = refl
take-map (suc n) [] = refl
take-map (suc n) (c ∷ chunks) = ap (λ q. some c ∷ q) (take-map n chunks)

All-take :
    (n : ℕ) (chunks : List Text)
    → All (λ c. is_nil c ≡ false) chunks
    → All (λ c. is_nil c ≡ false) (take n chunks)
All-take zero chunks full = tt
All-take (suc n) [] full = tt
All-take (suc n) (c ∷ chunks) full = (full.0, All-take n chunks full.1)

write-finished : (t : Text) (r : Response) → (write t r).finished ≡ r.finished
unfolding write
write-finished t r = ground arith

-- While there are chunks, the response is not finished.
sender-open :
    (percent : ℕ → Option ℕ) (show_progress : Bool) (chunks : List Text) (real progress last : ℕ)
    (r : Response)
    → All (λ c. is_nil c ≡ false) chunks
    → r.finished ≡ false
    → (sender percent show_progress (map some chunks) real progress last r).0.finished ≡ false
unfolding sender
sender-open percent show_progress [] real progress last r full h = h
sender-open percent show_progress ([] ∷ chunks) real progress last r full h = absurd cc
sender-open percent show_progress ((c ∷ chunk) ∷ chunks) real progress last r full h =
    let size : ℕ = real + length (c ∷ chunk) in
    elim (Option-cases (percent size)) [
      | inl e ↦ rw (e, sender) h
      | inr (m, e) ↦
          let now : ℕ = if ltb 100 m then 100 else m in
          let b : Bool = is_reported percent show_progress now last in
          let r' : Response = if b then write (progress_item now) r else r in
          let open_still : r'.finished ≡ false =
            ground (arith, write-finished (progress_item now) r) in
          rw (e, sender)
            (sender-open percent show_progress chunks size now (if b then now else last) r' full.1
              open_still)
    ]

-- While docker reads chunks, the response is not finished.
read-open :
    (percent : ℕ → Option ℕ) (show_progress : Bool) (docker : Import) (chunks : List Text)
    (r : Response)
    → All (λ c. is_nil c ≡ false) chunks
    → r.finished ≡ false
    → (sender percent show_progress (read_of docker (map some chunks)) 0 0 0 r).0.finished ≡ false
unfolding read_of
read-open percent show_progress imported chunks r full h =
    sender-open percent show_progress chunks 0 0 0 r full h
read-open percent show_progress (failed n) chunks r full h =
    rw (take-map n chunks)
      (sender-open percent show_progress (take n chunks) 0 0 0 r (All-take n chunks full) h)

-- The stream does not come to its end, and no chunk is empty.
abbrev pub IsCut : Stream → Type 0
IsCut (whole chunks) = ⊥
IsCut refused = Unit
IsCut (broken chunks) = All (λ c. is_nil c ≡ false) chunks

-- What a pull gives then.
abbrev pub result_of : Request → Image → Stream → Pulled
result_of q image (whole chunks) = pulled image.hash_id
result_of q image refused = if q.wait then http_error 500 else pulled image.hash_id
result_of q image (broken chunks) = stream_error

stream-open :
    (q : Request) (image : Image) (docker : Import) (s : Stream)
    → IsCut s
    → q.show_progress ≡ true
    → ((stream q image docker s).1 ≡ result_of q image s)
      × ((stream q image docker s).0.finished ≡ false)
unfolding stream
stream-open q image docker (whole chunks) cut shown = absurd cut
stream-open q image docker refused cut shown = (refl, unfold begin write in rw shown refl)
stream-open q image docker (broken chunks) cut shown = (
  refl,
  read-open image.percent q.show_progress docker chunks (begin q) cut
      (unfold begin write in rw shown refl),
)

-- If a pull of a whole image with progress does not get the image to its end, the response is not
-- finished. After a Client.Error it gives the image all the same, or an HTTP error if it is to wait;
-- after another exception, which comes after chunks that are not empty, it raises that.
pub pull_routine-open :
    {T : NodeTable} (C : Cluster T) (q : Request) (image : Image) (node_identifier : Text)
    (node : Node) (s : Stream)
    → IsCut s
    → choose_node C q.image_identifier q.node_identifier ≡ some node_identifier
    → C.image_data q.image_identifier ≡ some image
    → find_node C q.force node_identifier ≡ target node
    → C.streams node q.image_identifier ≡ s
    → q.show_progress ≡ true
    → ((pull_routine C q).1 ≡ result_of q image s) × ((pull_routine C q).0.finished ≡ false)
unfolding pull_routine
pull_routine-open C q image node_identifier node s cut e f g h shown =
    rw (e, pull_at)
      (rw (f, pull_image) (rw (g, pull_from) (rw h (stream-open q image C.docker s cut shown))))
