-- ===== src/Tests/Grades.antt =====
-- Runs of submit_answers, submit_exam and auto_submit_expired_exams of server/src/room.cpp.
use network_final_project.Base.{ℕ, ◌≡◌, refl, String, some, List, [], ◌∷◌, false, first, any}
use network_final_project.Base.Action.{ok, err}
use network_final_project.Db.{Db, ExamRow, AnswerRow}
use network_final_project.Room.Paper.{has_exam_id}
use network_final_project.Room.Grading.{
  Grade, is_expired, upsert, save_answers, submit_answers, graded_rows, count_correct, grade,
  close_exam, submit_exam, auto_submit_expired_exams,
}
use network_final_project.Room.Grading.Answers.{submit_answers-IsUnique, submit_answers_lem}
use network_final_project.Room.Grading.Upsert.{IsUnique, stored, answered}
use network_final_project.Room.Grading.Expiry.{auto_submit_expired_exams_lem, submit_exam_once}
use network_final_project.Tests.{at_time, at_time-IsUp, whole_numbers}
use network_final_project.Tests.Rooms.{room_db, open_exam}

abbrev sent : List (ℕ × String)
sent = (1, "B") ∷ (1, "A") ∷ []

abbrev an_answer : AnswerRow
an_answer = record { exam_id = 1; question_id = 1; selected_option = "A"; updated_at = 200 }

abbrev answered_db : Db ℕ
answered_db = record room_db { answers = an_answer ∷ [] }

submit_answers-IsUnique_example : IsUnique (submit_answers (at_time 200) 1 sent room_db).1.answers
submit_answers-IsUnique_example = submit_answers-IsUnique (at_time 200) 1 sent room_db tt

answers_saved : submit_answers (at_time 200) 1 sent room_db ≡ (ok tt, answered_db)
unfolding submit_answers save_answers upsert
answers_saved = refl

submit_answers_example :
    (stored 1 1 answered_db.answers ≡ answered (stored 1 1 room_db.answers) 1 sent)
    × (stored 2 1 answered_db.answers ≡ stored 2 1 room_db.answers)
submit_answers_example =
    submit_answers_lem (at_time 200) 1 sent room_db answered_db 2 1 answers_saved refl

auto_submit_expired_exams_example :
    any
      (is_expired (at_time 701) whole_numbers)
      (auto_submit_expired_exams (at_time 701) whole_numbers room_db).1.exams
    ≡ false
auto_submit_expired_exams_example =
    auto_submit_expired_exams_lem (at_time 701) whole_numbers room_db (at_time-IsUp 701)

abbrev full_marks : Grade ℕ
full_marks = record { correct = 1; total = 1; score = 10 }

abbrev graded_exam : ExamRow ℕ
graded_exam = record open_exam {
  submitted_at = some 200;
  correct_count = some 1;
  score = some 10;
  total_questions = 1;
}

abbrev graded_db : Db ℕ
graded_db = record answered_db { exams = graded_exam ∷ [] }

-- One of the two questions of the paper was answered, and the exam has full marks.
exam_submitted : submit_exam (at_time 200) whole_numbers 1 sent room_db ≡ (ok full_marks, graded_db)
unfolding submit_exam submit_answers save_answers upsert grade graded_rows count_correct close_exam
exam_submitted = refl

submit_exam_once_example :
    ((e : ExamRow ℕ) × (first (has_exam_id 1) graded_db.exams ≡ some e)
      × (e.score ≡ some 10)
      × (e.correct_count ≡ some 1)
      × (e.total_questions ≡ 1))
    × (submit_exam (at_time 300) whole_numbers 1 [] graded_db
        ≡ (err "Exam already submitted", graded_db))
submit_exam_once_example =
    submit_exam_once whole_numbers (at_time 200) (at_time 300) 1 sent [] room_db graded_db
      full_marks (at_time-IsUp 300) exam_submitted
