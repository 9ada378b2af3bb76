-- ===== src/Server/Lifetime.antt =====
-- server/src/server.cpp: the life of a Connection between its threads. Any of them may call stop while
-- the reader leaves its loop; `exchange` is one step, and so is each of the two parts after it.
-- disconnect and reader_loop of client/src/core.cpp have the same parts.
use network_final_project.Base.{
  ℕ, zero, suc, ◌+◌, ◌≤◌, ◌≡◌, refl, ◌∙◌, ap, Bool, true, false, Option, none, some, arith, ◌==◌,
  if◌then◌else◌,
}

-- The std::thread of the reader.
pub data Reader : Type 0 where
  unstarted reading ended joined : Reader

-- `closing` and `joining` count the threads inside stop, before the close and before the join, and
-- `closes` the calls of close(2).
pub record Link : Type 0 where
  pub alive : Bool
  pub is_open : Bool
  pub reader : Reader
  pub closing : ℕ
  pub joining : ℕ
  pub closes : ℕ

abbrev pub new_link : Link
new_link = record {
  alive = true;
  is_open = true;
  reader = unstarted;
  closing = 0;
  joining = 0;
  closes = 0;
}

unfoldable pub start : Link → Option Link
start l = elim l.reader [
  | unstarted ↦ some (record l { reader = reading })
  | reading ↦ none
  | ended ↦ none
  | joined ↦ none
]

-- The end of read_loop, after a failed read or a cleared flag.
unfoldable pub leave_loop : Link → Option Link
leave_loop l = elim l.reader [
  | reading ↦ some (record l { reader = ended; alive = false })
  | unstarted ↦ none
  | ended ↦ none
  | joined ↦ none
]

-- `if (!alive_.exchange(false)) return;`
unfoldable pub enter_stop : Link → Option Link
enter_stop l = some (if l.alive then record l { alive = false; closing = suc l.closing } else l)

-- `if (fd_ >= 0) { shutdown; close; fd_ = -1; }`
unfoldable pub close_socket : Link → Option Link
close_socket l = elim l.closing [
  | zero ↦ none
  | suc n ↦ some (
      if l.is_open
      then record l { is_open = false; closing = n; joining = suc l.joining; closes = suc l.closes }
      else record l { closing = n; joining = suc l.joining })
]

-- `if (reader_.joinable()) reader_.join();`, which waits for the loop to end.
unfoldable pub join_reader : Link → Option Link
join_reader l = elim l.joining [
  | zero ↦ none
  | suc n ↦ elim l.reader [
    | unstarted ↦ some (record l { joining = n })
    | reading ↦ none
    | ended ↦ some (record l { reader = joined; joining = n })
    | joined ↦ some (record l { joining = n })
  ]
]

pub data Move : Type 0 where
  starting leaving entering closing_socket joining_reader : Move

unfoldable pub move : Move → Link → Option Link
move starting l = start l
move leaving l = leave_loop l
move entering l = enter_stop l
move closing_socket l = close_socket l
move joining_reader l = join_reader l

pub data Reaches : Link → Link → Type 0 where
  here : (l : Link) → Reaches l l
  goes : (m : Move) (l l' l'' : Link) → move m l ≡ some l' → Reaches l' l'' → Reaches l l''

-- What every link keeps from its construction on.
pub record IsSound (l : Link) : Type 0 where
  pub untouched : l.alive ≡ true → l.closing + l.joining + l.closes ≡ 0
  pub one_closer : l.closing + l.closes ≤ 1
  pub open_till_close : l.is_open ≡ (l.closes == 0)
  pub joins_after : l.joining ≤ l.closes
  pub joined_after : l.reader ≡ joined → l.closes ≡ 1

new_link-IsSound : IsSound new_link
new_link-IsSound = record {
  untouched = λ e. omega arith;
  one_closer = omega arith;
  open_till_close = ground arith;
  joins_after = omega arith;
  joined_after = λ e. absurd (ground arith);
}

module _ (l l' : Link) (s : IsSound l) where
  move-IsSound : (m : Move) → move m l ≡ some l' → IsSound l'
  unfolding move start leave_loop enter_stop close_socket join_reader
  move-IsSound starting e = record {
    untouched = λ a. ground (arith, s.untouched);
    one_closer = ground (arith, s.one_closer);
    open_till_close = ground (arith, s.open_till_close);
    joins_after = ground (arith, s.joins_after);
    joined_after = λ j. absurd (ground arith);
  }
  move-IsSound leaving e = record {
    untouched = λ a. absurd (ground arith);
    one_closer = ground (arith, s.one_closer);
    open_till_close = ground (arith, s.open_till_close);
    joins_after = ground (arith, s.joins_after);
    joined_after = λ j. absurd (ground arith);
  }
  move-IsSound entering e = record {
    untouched = λ a. absurd (ground arith);
    one_closer = ground (arith, s.one_closer, s.untouched);
    open_till_close = ground (arith, s.open_till_close);
    joins_after = ground (arith, s.joins_after);
    joined_after = λ j. ground (arith, s.joined_after);
  }
  move-IsSound closing_socket e = record {
    untouched = λ a. ground (arith, s.untouched);
    one_closer = ground (arith, s.one_closer, s.open_till_close);
    open_till_close = ground (arith, s.open_till_close);
    joins_after = ground (arith, s.joins_after, s.one_closer, s.open_till_close);
    joined_after = λ j. ground (arith, s.joined_after, s.one_closer);
  }
  move-IsSound joining_reader e = record {
    untouched = λ a. ground (arith, s.untouched);
    one_closer = ground (arith, s.one_closer);
    open_till_close = ground (arith, s.open_till_close);
    joins_after = ground (arith, s.joins_after);
    joined_after = λ j. ground (arith, s.joined_after, s.joins_after, s.one_closer);
  }

Reaches-IsSound : (l l' : Link) → Reaches l l' → IsSound l → IsSound l'
Reaches-IsSound l _ (here _) s = s
Reaches-IsSound l l'' (goes m _ l' _ e later) s =
    Reaches-IsSound l' l'' later (move-IsSound l l' s m e)

-- However many threads call stop and whenever the reader leaves its loop: the socket of a connection
-- is closed once at most, it is open until it is closed, and the reader is joined by a thread that
-- has closed it before.
pub new_link-Reaches :
    (l : Link)
    → Reaches new_link l
    → (l.closes ≤ 1)
      × (l.is_open ≡ (l.closes == 0))
      × (l.joining ≤ l.closes)
      × ((l.reader ≡ joined) → l.closes ≡ 1)
new_link-Reaches l r =
    let s = Reaches-IsSound new_link l r new_link-IsSound in
    (omega (arith, s.one_closer), s.open_till_close, s.joins_after, s.joined_after)

-- Once the reader has left its loop before any call of stop, nothing closes the socket or joins the
-- thread.
left_open :
    (l l' : Link)
    → Reaches l l'
    → l.alive ≡ false
    → l.closing ≡ 0
    → l.joining ≡ 0
    → l.reader ≡ ended
    → (l'.is_open ≡ l.is_open) × (l'.reader ≡ ended)
unfolding move start leave_loop enter_stop close_socket join_reader
left_open l _ (here _) gone idle none_joins over = (refl, over)
left_open l l'' (goes starting _ l' _ e later) gone idle none_joins over = absurd (ground arith)
left_open l l'' (goes leaving _ l' _ e later) gone idle none_joins over = absurd (ground arith)
left_open l l'' (goes entering _ l' _ e later) gone idle none_joins over =
    let same : l' ≡ l = ground arith in
    let (stays, ends) =
      left_open l' l'' later (ground arith) (ground arith) (ground arith) (ground arith) in
    (stays ∙ ap (λ k. k.is_open) same, ends)
left_open l l'' (goes closing_socket _ l' _ e later) gone idle none_joins over =
    absurd (ground arith)
left_open l l'' (goes joining_reader _ l' _ e later) gone idle none_joins over =
    absurd (ground arith)
