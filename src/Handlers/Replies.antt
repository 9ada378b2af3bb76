-- ===== src/Handlers/Replies.antt =====
-- server/src/main.cpp: the data of the SUCCESS responses, as the codec of the other side reads them.
use mathlib.Core.Path.{subst}
use network_final_project.Base.{ℕ, ◌≡◌, inl, inr, String, true, List, arith}
use network_final_project.Codec.Json.{JsonApi, JsonLaws}
use network_final_project.Codec.Message.{Message}
use network_final_project.Db.{Db, Floats}
use network_final_project.Db.Env.{Env}
use network_final_project.Handlers.{
  JsonData, Flow, value, refused, thrown, Handling, ◌>>=◌, pure, Reply, replies,
}
use network_final_project.Handlers.Fields.{fields-is_object}
use network_final_project.Handlers.Account.{
  echo_handler, register_request, login_request, logout_request,
}
use network_final_project.Handlers.Rooms.{
  create_room_request, list_rooms_request, join_room_request, start_exam_request,
  delete_room_request, finish_room_request, room_details_request, room_results_request,
}
use network_final_project.Handlers.Exams.{
  exam_paper_request, catch_all, timer_block, timer_request, submit_answer_request,
  submit_exam_request,
}
use network_final_project.Handlers.Practice.{
  start_practice_request, submit_practice_request, user_history_request,
}
use network_final_project.Handlers.Rules.{Flow-cases}

module _ {J : Type 0} (js : JsonApi J) where
  unfoldable pub HasObject : Flow (Reply J) → Type 0
  HasObject (value r) = js.is_object r.payload ≡ true
  HasObject (refused code text) = Unit
  HasObject (thrown text) = Unit

  -- Only how a handler ends matters.
  after_any :
      {S A : Type 0} (m : Handling S A) (k : A → Handling S (Reply J)) (s : S)
      → ((a : A) (s' : S) → HasObject (k a s').0)
      → HasObject ((m >>= k) s).0
  unfolding HasObject ◌>>=◌
  after_any m k s h = elim (Flow-cases (m s).0) [
    | inl (a, e) ↦ subst HasObject (ground arith) (h a (m s).1)
    | inr (inl (code, text, e)) ↦ subst HasObject {x = refused code text} (ground arith) tt
    | inr (inr (text, e)) ↦ subst HasObject {x = thrown text} (ground arith) tt
  ]

  pure-HasObject :
      {S : Type 0} (r : Reply J) (s : S) → js.is_object r.payload ≡ true → HasObject (pure r s).0
  unfolding HasObject pure
  pure-HasObject r s h = h

module _ {J D : Type 0} (js : JsonApi J) (laws : JsonLaws js) (jd : JsonData J D) where
  -- The last line of a handler.
  replies_lem :
      {S : Type 0} (rows : List (String × J)) (s : S) → HasObject js (pure (replies js jd rows) s).0
  replies_lem rows s = pure-HasObject js _ s (fields-is_object js jd laws rows)

module _ {J D : Type 0} (js : JsonApi J) (laws : JsonLaws js) (jd : JsonData J D) (fl : Floats D)
    (env : ℕ → Env) (req : Message J) (db : Db D) where
  -- An answer to ECHO has the data of the request.
  pub echo_handler-HasObject :
      js.is_object req.payload ≡ true → HasObject js (echo_handler js jd env req db).0
  unfolding echo_handler
  echo_handler-HasObject given = pure-HasObject js _ db given

  pub register_request-HasObject : HasObject js (register_request js jd env req db).0
  unfolding register_request
  register_request-HasObject = after_any js _ _ db λ a1 s1. after_any js _ _ s1 λ a2 s2.
      after_any js _ _ s2 λ a3 s3. after_any js _ _ s3 λ a4 s4.
        after_any js _ _ s4 λ a5 s5. after_any js _ _ s5 λ a6 s6. replies_lem js laws jd _ _

  pub login_request-HasObject : HasObject js (login_request js jd env req db).0
  unfolding login_request
  login_request-HasObject = after_any js _ _ db λ a1 s1. after_any js _ _ s1 λ a2 s2.
      after_any js _ _ s2
        λ a3 s3. after_any js _ _ s3 λ a4 s4. pure-HasObject js _ _ (fields-is_object js jd laws _)

  pub logout_request-HasObject : HasObject js (logout_request js jd env req db).0
  unfolding logout_request
  logout_request-HasObject =
      after_any js _ _ db λ a1 s1.
        after_any js _ _ s1 λ a2 s2. after_any js _ _ s2 λ a3 s3. replies_lem js laws jd _ _

  pub create_room_request-HasObject : HasObject js (create_room_request js jd env req db).0
  unfolding create_room_request
  create_room_request-HasObject = after_any js _ _ db λ a1 s1. after_any js _ _ s1 λ a2 s2.
      after_any js _ _ s2 λ a3 s3. after_any js _ _ s3 λ a4 s4. after_any js _ _ s4 λ a5 s5.
        after_any js _ _ s5 λ a6 s6. after_any js _ _ s6 λ a7 s7. replies_lem js laws jd _ _

  pub list_rooms_request-HasObject : HasObject js (list_rooms_request js jd env req db).0
  unfolding list_rooms_request
  list_rooms_request-HasObject =
      after_any js _ _ db λ a1 s1. after_any js _ _ s1 λ a2 s2. replies_lem js laws jd _ _

  pub join_room_request-HasObject : HasObject js (join_room_request js jd env req db).0
  unfolding join_room_request
  join_room_request-HasObject = after_any js _ _ db λ a1 s1. after_any js _ _ s1 λ a2 s2.
      after_any js _ _ s2 λ a3 s3.
        after_any js _ _ s3 λ a4 s4. after_any js _ _ s4 λ a5 s5. replies_lem js laws jd _ _

  pub start_exam_request-HasObject : HasObject js (start_exam_request js jd env req db).0
  unfolding start_exam_request
  start_exam_request-HasObject = after_any js _ _ db λ a1 s1.
      after_any js _ _ s1 λ a2 s2.
        after_any js _ _ s2 λ a3 s3. after_any js _ _ s3 λ a4 s4. replies_lem js laws jd _ _

  pub delete_room_request-HasObject : HasObject js (delete_room_request js jd env req db).0
  unfolding delete_room_request
  delete_room_request-HasObject =
      after_any js _ _ db λ a1 s1.
        after_any js _ _ s1 λ a2 s2. after_any js _ _ s2 λ a3 s3. replies_lem js laws jd _ _

  pub finish_room_request-HasObject : HasObject js (finish_room_request js jd env req db).0
  unfolding finish_room_request
  finish_room_request-HasObject =
      after_any js _ _ db λ a1 s1.
        after_any js _ _ s1 λ a2 s2. after_any js _ _ s2 λ a3 s3. replies_lem js laws jd _ _

  pub room_details_request-HasObject : HasObject js (room_details_request js jd env req db).0
  unfolding room_details_request
  room_details_request-HasObject = after_any js _ _ db λ a1 s1.
      after_any js _ _ s1 λ a2 s2.
        after_any js _ _ s2 λ a3 s3. after_any js _ _ s3 λ a4 s4. replies_lem js laws jd _ _

  pub room_results_request-HasObject : HasObject js (room_results_request js jd env fl req db).0
  unfolding room_results_request
  room_results_request-HasObject = after_any js _ _ db λ a1 s1.
      after_any js _ _ s1 λ a2 s2.
        after_any js _ _ s2 λ a3 s3. after_any js _ _ s3 λ a4 s4. replies_lem js laws jd _ _

  pub exam_paper_request-HasObject : HasObject js (exam_paper_request js jd env req db).0
  unfolding exam_paper_request
  exam_paper_request-HasObject = after_any js _ _ db λ a1 s1.
      after_any js _ _ s1 λ a2 s2.
        after_any js _ _ s2 λ a3 s3. after_any js _ _ s3 λ a4 s4. replies_lem js laws jd _ _

  timer_block-HasObject : HasObject js (timer_block js jd env req db).0
  unfolding timer_block
  timer_block-HasObject = after_any js _ _ db λ a1 s1.
      after_any js _ _ s1 λ a2 s2.
        after_any js _ _ s2 λ a3 s3. after_any js _ _ s3 λ a4 s4. replies_lem js laws jd _ _

  catch_all-HasObject :
      (m : Handling (Db D) (Reply J))
      → HasObject js (m db).0
      → HasObject js (catch_all js jd env m db).0
  unfolding HasObject
  catch_all-HasObject m h = elim (Flow-cases (m db).0) [
    | inl (a, e) ↦ subst (HasObject js) (ground arith) h
    | inr (inl (code, text, e)) ↦ subst (HasObject js) {x = refused code text} (ground arith) tt
    | inr (inr (text, e)) ↦
        subst (HasObject js) {x = refused "INTERNAL_ERROR" "internal server error"} (ground arith)
          tt
  ]

  pub timer_request-HasObject : HasObject js (timer_request js jd env req db).0
  unfolding timer_request
  timer_request-HasObject = catch_all-HasObject (timer_block js jd env req) timer_block-HasObject

  pub submit_answer_request-HasObject : HasObject js (submit_answer_request js jd env req db).0
  unfolding submit_answer_request
  submit_answer_request-HasObject =
      after_any js _ _ db λ a1 s1.
        after_any js _ _ s1 λ a2 s2. after_any js _ _ s2 λ a3 s3. replies_lem js laws jd _ _

  pub submit_exam_request-HasObject : HasObject js (submit_exam_request js jd env fl req db).0
  unfolding submit_exam_request
  submit_exam_request-HasObject =
      after_any js _ _ db λ a1 s1.
        after_any js _ _ s1 λ a2 s2. after_any js _ _ s2 λ a3 s3. replies_lem js laws jd _ _

  pub start_practice_request-HasObject : HasObject js (start_practice_request js jd env req db).0
  unfolding start_practice_request
  start_practice_request-HasObject = after_any js _ _ db λ a1 s1. after_any js _ _ s1 λ a2 s2.
      after_any js _ _ s2 λ a3 s3. after_any js _ _ s3 λ a4 s4.
        after_any js _ _ s4 λ a5 s5. after_any js _ _ s5 λ a6 s6. replies_lem js laws jd _ _

  pub submit_practice_request-HasObject :
      HasObject js (submit_practice_request js jd env fl req db).0
  unfolding submit_practice_request
  submit_practice_request-HasObject = after_any js _ _ db λ a1 s1. after_any js _ _ s1 λ a2 s2.
      after_any js _ _ s2 λ a3 s3. after_any js _ _ s3 λ a4 s4. after_any js _ _ s4 λ a5 s5.
        after_any js _ _ s5 λ a6 s6. after_any js _ _ s6 λ a7 s7. replies_lem js laws jd _ _

  pub user_history_request-HasObject : HasObject js (user_history_request js jd env fl req db).0
  unfolding user_history_request
  user_history_request-HasObject =
      after_any js _ _ db λ a1 s1.
        after_any js _ _ s1 λ a2 s2. after_any js _ _ s2 λ a3 s3. replies_lem js laws jd _ _
