-- ===== src/Client/Window/Events.antt =====
-- client/src/ui.cpp: what an event may change, and the loop over the events that have come.
use network_final_project.Base.{
  ℕ, zero, suc, ◌<◌, ◌≡◌, ◌≢◌, refl, String, Bool, true, false, some, List, [], ◌∷◌, ◌++◌, arith,
  length, ◌||◌, ◌⊎◌, str_eq, eq_iff, if◌then◌else◌, inl, inr,
}
use network_final_project.Base.Action.{Action, Result-cases, pure, ◌>>◌}
use network_final_project.Codec.Json.{JsonApi}
use network_final_project.Codec.Message.{Message, error}
use network_final_project.Handlers.{JsonData, minus_one}
use network_final_project.Client.{Queue, pop_event}
use network_final_project.Client.State.{Question, ClientState}
use network_final_project.Client.Window.{
  JsonView, read_line, push_lines, read_question, push_questions, add_to_exam, add_to_practice,
  show_login, show_rooms, show_exam, show_practice, show_results, handle_event, drain, is_error,
  show_error,
}

-- What the window knows of its user.
abbrev pub SameUser : ClientState → ClientState → Type 0
SameUser st st' =
    (st'.token ≡ st.token)
    × (st'.role ≡ st.role)
    × (st'.username ≡ st.username)
    × (st'.password ≡ st.password)

module _ {st : ClientState} where
  either :
      (b : Bool) (m k : Action ClientState (Unit {0}))
      → SameUser st (m st).1
      → SameUser st (k st).1
      → SameUser st ((if b then m else k) st).1
  either true m k p q = p
  either false m k p q = q

  unless :
      (b : Bool) (m k : Action ClientState (Unit {0}))
      → b ≡ false
      → SameUser st (k st).1
      → SameUser st ((if b then m else k) st).1
  unless true m k e q = absurd (ground arith)
  unless false m k e q = q

not_login : {action : String} → action ≢ "LOGIN" → str_eq action "LOGIN" ≡ false
not_login {action} other = ground (arith, eq_iff action "LOGIN")

module _ {J D : Type 0} (js : JsonApi J) (jd : JsonData J D) (jv : JsonView J) where
  read_line-same : (r : J) (st : ClientState) → (read_line js jd jv r st).1 ≡ st
  unfolding read_line
  read_line-same r st = ground arith

  read_question-same : (q : J) (st : ClientState) → (read_question js jd jv q st).1 ≡ st
  unfolding read_question
  read_question-same q st = ground arith

  push_lines-SameUser : (rs : List J) (st : ClientState) → SameUser st (push_lines js jd jv rs st).1
  unfolding push_lines
  push_lines-SameUser [] st = ground arith
  push_lines-SameUser (r ∷ rs) st = elim (Result-cases (read_line js jd jv r st).0) [
    | inl (e, failed) ↦ ground (arith, read_line-same r st)
    | inr (line, found) ↦ ground (
      arith,
      read_line-same r st,
      push_lines-SameUser rs (record st { rooms = st.rooms ++ line ∷ [] }),
    )
  ]

  push_questions-SameUser :
      (add : Question → ClientState → ClientState) (qs : List J) (st : ClientState)
      → ((q : Question) (st : ClientState) → SameUser st (add q st))
      → SameUser st (push_questions js jd jv add qs st).1
  unfolding push_questions
  push_questions-SameUser add [] st keeps = ground arith
  push_questions-SameUser add (q ∷ qs) st keeps =
      elim (Result-cases (read_question js jd jv q st).0) [
        | inl (e, failed) ↦ ground (arith, read_question-same q st)
        | inr (question, found) ↦ ground (
          arith,
          read_question-same q st,
          keeps question st,
          push_questions-SameUser add qs (add question st) keeps,
        )
      ]

  show_rooms-SameUser : (d : J) (st : ClientState) → SameUser st (show_rooms js jd jv d st).1
  unfolding show_rooms
  show_rooms-SameUser d st =
      ground
        (arith, push_lines-SameUser (jd.elements (js.get d "rooms")) (record st { rooms = [] }))

  show_exam-SameUser : (d : J) (st : ClientState) → SameUser st (show_exam js jd jv d st).1
  unfolding show_exam
  show_exam-SameUser d st = elim (Result-cases (jd.value_int d "exam_id" minus_one)) [
    | inl (e, failed) ↦ ground (arith, failed)
    | inr (exam_id, read) ↦ elim (Result-cases (jd.value_int d "room_id" minus_one)) [
      | inl (e, failed) ↦ ground (arith, read, failed)
      | inr (room_id, read') ↦
          let st' = record st {
            exam = record { room_id = room_id; exam_id = exam_id; questions = [] };
          } in
          let kept =
            push_questions-SameUser add_to_exam (jd.elements (js.get d "questions")) st'
              (λ q st. (refl, refl, refl, refl)) in
          ground (arith, read, read', kept)
    ]
  ]

  show_practice-SameUser : (d : J) (st : ClientState) → SameUser st (show_practice js jd jv d st).1
  unfolding show_practice
  show_practice-SameUser d st = elim (Result-cases (jd.value_int d "practice_id" minus_one)) [
    | inl (e, failed) ↦ ground (arith, failed)
    | inr (practice_id, read) ↦
        let st' = record st { practice = record { practice_id = practice_id; questions = [] } } in
        let kept =
          push_questions-SameUser add_to_practice (jd.elements (js.get d "questions")) st'
            (λ q st. (refl, refl, refl, refl)) in
        ground (arith, read, kept)
  ]

  show_results-SameUser : (d : J) (st : ClientState) → SameUser st (show_results js jd jv d st).1
  unfolding show_results
  show_results-SameUser d st = ground arith

  -- Whatever the server sends and even where reading it throws, only an answer to LOGIN that is no error
  -- can change the token, the role and the account of the window.
  pub handle_event-SameUser :
      (m : Message J) (st : ClientState)
      → (m.status ≡ error) ⊎ (m.action ≢ "LOGIN")
      → SameUser st (handle_event js jd jv m st).1
  unfolding handle_event
  handle_event-SameUser m st (inl e) = ground arith
  handle_event-SameUser m st (inr other) =
      let is : String → Bool = λ action. str_eq m.action action in
      let d = m.payload in
      let results =
        is "SUBMIT_EXAM"
        || (is "SUBMIT_PRACTICE" || (is "GET_ROOM_RESULTS" || is "GET_USER_HISTORY")) in
      let k1 : Action ClientState (Unit {0}) =
        if results then show_results js jd jv d else pure tt in
      let k2 = if is "START_PRACTICE" then show_practice js jd jv d else k1 in
      let k3 = if is "GET_EXAM_PAPER" then show_exam js jd jv d else k2 in
      let k4 = if is "LIST_ROOMS" then show_rooms js jd jv d else k3 in
      let k5 = if is "LOGIN" then show_login js jd jv m else k4 in
      either (is_error m.status) (show_error m) k5 (refl, refl, refl, refl)
        (unless (is "LOGIN") (show_login js jd jv m) k4 (not_login other) (
          either (is "LIST_ROOMS") (show_rooms js jd jv d) k3 (show_rooms-SameUser d st) (
            either (is "GET_EXAM_PAPER") (show_exam js jd jv d) k2 (show_exam-SameUser d st) (
              either (is "START_PRACTICE") (show_practice js jd jv d) k1
                (show_practice-SameUser d st)
                (either results (show_results js jd jv d) (pure tt) (show_results-SameUser d st)
                  (refl, refl, refl, refl))))))

  -- The events one after the other.
  abbrev pub show_all : Queue J → Action ClientState (Unit {0})
  show_all [] = pure tt
  show_all (m ∷ ms) = handle_event js jd jv m >> show_all ms

  -- With more rounds than there are events, the loop ends: it has handled every event once, in the order in
  -- which they came, and leaves none, or it has stopped at the first event whose handling throws.
  pub drain-show_all :
      (n : ℕ) (queue : Queue J) (st : ClientState)
      → length queue < n
      → drain js jd jv n queue st ≡ (show_all queue >> pure (some [])) st
  unfolding drain pop_event
  drain-show_all zero queue st h = absurd (ground arith)
  drain-show_all (suc n) [] st h = refl
  drain-show_all (suc n) (m ∷ ms) st h = elim (Result-cases (handle_event js jd jv m st).0) [
    | inl (e, failed) ↦ ground (arith, failed)
    | inr (a, shown) ↦
        ground (arith, shown, drain-show_all n ms (handle_event js jd jv m st).1 (ground arith))
  ]
