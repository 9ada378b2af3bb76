-- ===== src/Room/Questions.antt =====
-- server/src/room.cpp: pick_questions and pick_questions_filtered, which draw the questions of a
-- paper at random.
use network_final_project.Base.{
  ℕ, ◌-◌, String, Bool, true, not, ◌&&◌, List, [], ◌++◌, map, ltb, ◌==◌, str_eq, if◌then◌else◌,
  length, take, select, any, c_str,
}
use network_final_project.Base.Int.{ℤ, pos, negsuc, pos_part, is_positive}
use network_final_project.Db.{Db, QuestionRow, PaperQuestion}
use network_final_project.Db.Env.{
  Env, select_by_difficulty, select_missing, select_filtered, prepares,
}
use network_final_project.Room.{RoomSettings}

-- The source parses options_json here, with a call that throws where the column holds no JSON text.
-- The column is what `dump` wrote: its text stands for the parsed value, and that exception is not
-- modelled.
unfoldable pub paper_question : QuestionRow → PaperQuestion
paper_question q = record {
  question_id = q.id;
  question_text = q.text;
  options = q.options_json;
  topic = q.topic;
  difficulty = q.difficulty;
}

abbrev pub of_difficulty : String → QuestionRow → Bool
of_difficulty d q = str_eq q.difficulty d

-- `WHERE id NOT IN (ids)`, with `ids` those of the questions picked so far.
abbrev pub not_picked : List PaperQuestion → QuestionRow → Bool
not_picked qs q = not (any (λ p. p.question_id == q.id) qs)

-- The lambda `fetch`; `n` numbers the random orders.
unfoldable pub fetch : Env → ℕ → List QuestionRow → String → ℤ → List PaperQuestion
fetch env n bank difficulty count =
    if is_positive count && prepares env select_by_difficulty
    then map paper_question
        (take (pos_part count) (env.random_order n (select (of_difficulty difficulty) bank)))
    else []

-- The part before the filling: EASY, MEDIUM and HARD in turn.
unfoldable pub fetch_levels : Env → List QuestionRow → RoomSettings → List PaperQuestion
unfolding fetch
fetch_levels env bank s =
    (fetch env 0 bank "EASY" s.easy ++ fetch env 1 bank "MEDIUM" s.medium)
    ++ fetch env 2 bank "HARD" s.hard

-- Fills up to `total_questions` from the rest of the bank.
unfoldable pub fill_missing :
    Env → List QuestionRow → RoomSettings → List PaperQuestion → List PaperQuestion
fill_missing env bank s qs =
    if (is_positive s.total_questions && ltb (length qs) (pos_part s.total_questions))
      && prepares env select_missing
    then qs
      ++ map paper_question (
          take (pos_part s.total_questions - length qs)
            (env.random_order 3 (select (not_picked qs) bank)))
    else qs

unfoldable pub trim : Env → RoomSettings → List PaperQuestion → List PaperQuestion
trim env s qs =
    if is_positive s.total_questions && ltb (pos_part s.total_questions) (length qs)
    then take (pos_part s.total_questions) (env.shuffle qs)
    else qs

-- Every caller has opened the database.
unfoldable pub pick_questions : {D : Type 0} → Env → RoomSettings → Db D → List PaperQuestion
unfolding fetch_levels fill_missing trim
pick_questions env s db =
    trim env s (fill_missing env db.questions s (fetch_levels env db.questions s))

-- `LIMIT n`: SQLite reads a negative limit as no limit.
abbrev pub limit {ℓ} : {A : Type ℓ} → ℤ → List A → List A
limit (pos n) xs = take n xs
limit (negsuc n) xs = xs

-- An empty list of difficulties or topics does not restrict.
abbrev pub matches : List String → List String → QuestionRow → Bool
matches difficulties topics q =
    (if any (λ d. true) difficulties
      then any (λ d. str_eq q.difficulty (c_str d)) difficulties
      else true)
    && (if any (λ t. true) topics then any (λ t. str_eq q.topic (c_str t)) topics else true)

unfoldable pub pick_questions_filtered :
    {D : Type 0} → Env → ℤ → List String → List String → Db D → List PaperQuestion
unfolding paper_question
pick_questions_filtered env count difficulties topics db =
    if prepares env select_filtered
    then map paper_question
        (limit count (env.random_order 0 (select (matches difficulties topics) db.questions)))
    else []
