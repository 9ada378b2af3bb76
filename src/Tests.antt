-- ===== src/Tests.antt =====
-- The values that the tests of the components share: a server whose SQLite accepts every call, and
-- whole numbers for the type `double`.
pub mod Accounts
pub mod Rooms
pub mod Grades
pub mod Toys
pub mod Frames
pub mod Threads
pub mod Papers
pub mod Practices
pub mod Values
pub mod Servers
pub mod Streams
pub mod Links
pub mod Conversations
pub mod Windows
pub mod Lobbies
pub mod Seeds
pub mod Echoes
pub mod Responses
use network_final_project.Base.{
  ℕ, ◌+◌, ◌*◌, ◌/◌, String, Option, none, true, List, [], ◌∷◌, ltb, leb, refl, str_eq,
  if◌then◌else◌,
}
use network_final_project.Db.{Db, Floats, UserRow}
use network_final_project.Db.Env.{Env, IsUp}

-- A clock that stands, and a hash that tells "quiz_saltsecret" from every other text.
abbrev pub at_time : ℕ → Env
at_time now = record {
  opens = true;
  prepare = λ q. none;
  step = λ q n. none;
  exec = λ q. none;
  clock = λ n. now;
  draw = λ n. now + n;
  hash = λ s. if str_eq s "quiz_saltsecret" then 42 else 7;
  random_order = λ n qs. qs;
  shuffle = λ qs. qs;
}

pub at_time-IsUp : (now : ℕ) → IsUp (at_time now)
at_time-IsUp now = record {
  opened_up = refl;
  prepared = λ q. refl;
  stepped = λ q n. refl;
  executed = λ q. refl;
}

abbrev pub whole_numbers : Floats ℕ
whole_numbers = record {
  of_int = λ n. n;
  neg = λ n. 0;
  add = λ a b. a + b;
  mul = λ a b. a * b;
  div = λ a b. a / b;
  le = λ a b. leb a b;
  less = λ a b. ltb a b;
}

abbrev pub empty_db : Db ℕ
empty_db = record {
  users = [];
  next_user = 1;
  sessions = [];
  questions = [];
  rooms = [];
  next_room = 1;
  participants = [];
  exams = [];
  next_exam = 1;
  answers = [];
  exam_questions = [];
  practice_runs = [];
  next_practice = 1;
}
