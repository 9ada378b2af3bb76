-- ===== src/Tests/Links.antt =====
-- A life of a connection of server/src/server.cpp that two threads stop.
use network_final_project.Base.{◌≤◌, ◌≡◌, refl, false, ◌==◌}
use network_final_project.Server.Lifetime.{
  Link, joined, new_link, start, leave_loop, enter_stop, close_socket, join_reader, starting,
  leaving, entering, closing_socket, joining_reader, move, Reaches, here, goes, new_link-Reaches,
}

abbrev stopped_link : Link
stopped_link = record {
  alive = false;
  is_open = false;
  reader = joined;
  closing = 0;
  joining = 0;
  closes = 1;
}

a_life : Reaches new_link stopped_link
unfolding move start leave_loop enter_stop close_socket join_reader
a_life = goes starting _ _ _ refl (
    goes entering _ _ _ refl (
      goes entering _ _ _ refl (
        goes leaving _ _ _ refl
          (goes closing_socket _ _ _ refl (goes joining_reader _ _ _ refl (here stopped_link))))))

new_link-Reaches_example :
    (stopped_link.closes ≤ 1)
    × (stopped_link.is_open ≡ (stopped_link.closes == 0))
    × (stopped_link.joining ≤ stopped_link.closes)
    × ((stopped_link.reader ≡ joined) → stopped_link.closes ≡ 1)
new_link-Reaches_example = new_link-Reaches stopped_link a_life
