-- ===== src/Handlers/Access/Practice.antt =====
-- server/src/main.cpp: what the handlers of practice and of histories may change.
use network_final_project.Base.{ℕ, ◌≡◌, refl, String, List, [], ◌∷◌, arith}
use network_final_project.Base.Int.{ℤ, pos, negsuc, scale}
use network_final_project.Codec.Json.{JsonApi}
use network_final_project.Codec.Message.{Message}
use network_final_project.Db.{Db, Floats}
use network_final_project.Db.Env.{Env}
use network_final_project.Room.Reports.History.{get_user_history}
use network_final_project.Room.Calls.{practises, submits_practice, step}
use network_final_project.Handlers.{JsonData, ◌>>=◌, pure, call, read, read_texts}
use network_final_project.Handlers.Practice.{
  read_filter, start_practice_request, submit_practice_request, history_of, user_history_request,
}
use network_final_project.Handlers.Access.{
  Acts-pure, Acts-read, Acts-require, Acts-positive, Acts-quiet, Acts-call, pure-same, Verdict,
  authorised-Verdict,
}
use network_final_project.Handlers.Access.Exams.{read_answers-same}

module _ {J D : Type 0} (js : JsonApi J) (jd : JsonData J D) (env : ℕ → Env) where
  read_texts-same : (rows : List J) (db : Db D) → (read_texts js jd rows db).1 ≡ db
  unfolding read_texts read pure ◌>>=◌
  read_texts-same [] db = refl
  read_texts-same (a ∷ rows) db = ground (arith, read_texts-same rows db)

  read_filter-same : (d : J) (key : String) (db : Db D) → (read_filter js jd env d key db).1 ≡ db
  unfolding read_filter pure
  read_filter-same d key db = ground (arith, read_texts-same (jd.elements (js.get d key)) db)

  history_of-same : (fl : Floats D) (uid : ℤ) (db : Db D) → (history_of js jd env fl uid db).1 ≡ db
  unfolding get_user_history
  history_of-same fl (pos uid) db = ground arith
  history_of-same fl (negsuc n) db = ground arith

module _ {J D : Type 0} (js : JsonApi J) (jd : JsonData J D) (fl : Floats D) (env : ℕ → Env)
    (req : Message J) (db : Db D) where
  pub start_practice_request-Verdict :
      Verdict fl env req.session_id db (start_practice_request js jd env req db)
  unfolding start_practice_request
  start_practice_request-Verdict = authorised-Verdict env req db _ λ s db'. Acts-read _ _ λ count.
      Acts-read _ _ λ minutes.
        Acts-quiet _ _ (read_filter-same js jd env req.payload _ db') λ diffs e.
          Acts-quiet _ _ (read_filter-same js jd env req.payload _ db') λ topics e'.
            Acts-call _ _ _ (practises s.user_id count (scale 60 minutes) diffs topics) 1
              (ground arith) (unfold step in refl) (λ a d. pure-same _ d)

  pub submit_practice_request-Verdict :
      Verdict fl env req.session_id db (submit_practice_request js jd env fl req db)
  unfolding submit_practice_request
  submit_practice_request-Verdict = authorised-Verdict env req db _ λ s db'. Acts-read _ _ λ given.
      Acts-positive _ _ _ λ pid. Acts-require _ _ _ _ λ present. Acts-require _ _ _ _ λ array.
        Acts-quiet _ _ (read_answers-same js jd env _ db') λ answers e.
          Acts-call _ _ _ (submits_practice pid s.user_id answers) 1 (ground arith)
            (unfold step in refl) (λ a d. pure-same _ d)

  pub user_history_request-Verdict :
      Verdict fl env req.session_id db (user_history_request js jd env fl req db)
  unfolding user_history_request
  user_history_request-Verdict = authorised-Verdict env req db _ λ s db'.
      Acts-quiet _ _ (unfold read pure in ground arith) λ target e.
        Acts-quiet _ _ (unfold call in ground (arith, history_of-same js jd env fl target db'))
          λ hist e'. Acts-pure _
