-- ===== src/Server/Select/Tests.antt =====
-- The sockets of the select() loop at concrete inputs. (event_wrapper_select.c)
use open_tube_engine_old.Base.{ℕ, ◌≡◌, ◌==◌, not, refl, [], ◌∷◌, some}
use open_tube_engine_old.Server.Select.{
  Sock, Select, raise, drop_sock, recalc_maxfd_plus_one, _add, set_select_event_mask, fill_sets,
  prepare_sets,
}
use open_tube_engine_old.Server.Select.Steps.{adds, masks, polls, step, Stepped}
use open_tube_engine_old.Server.Select.Reach.{Reachable, no_sets, start, after, Reachable-Stepped}

abbrev sock : ℕ → ℕ → Sock
sock fd m = record { fd = fd; mask = m }

abbrev one_sock : Select
one_sock = record { socks = sock 5 1 ∷ []; maxfd_plus_one = 6 }

abbrev two_socks : Select
two_socks = record { socks = sock 5 1 ∷ sock 9 1 ∷ []; maxfd_plus_one = 10 }

abbrev writing : Select
writing = record { socks = sock 5 1 ∷ sock 9 2 ∷ []; maxfd_plus_one = 10 }

writing-Reachable : Reachable 3 100 writing no_sets
unfolding step _add recalc_maxfd_plus_one raise set_select_event_mask
writing-Reachable =
    after (masks 9 2) writing no_sets
      (after (adds 9) two_socks no_sets (after (adds 5) one_sock no_sets start refl refl) refl refl)
      tt refl

-- Socket 5 has been closed.
Reachable-Stepped_example :
    Stepped 3 100
      (polls (λ fd. not (fd == 5)))
      writing.socks
      no_sets
      (step 3 100 (polls (λ fd. not (fd == 5))) (writing, no_sets))
Reachable-Stepped_example =
    Reachable-Stepped 3 100 (polls (λ fd. not (fd == 5))) writing no_sets writing-Reachable tt

poll_writing :
    step 3 100 (polls (λ fd. not (fd == 5))) (writing, no_sets)
    ≡ some (
      record { socks = sock 9 2 ∷ []; maxfd_plus_one = 10 },
      record { rfds = 3 ∷ []; wfds = 9 ∷ []; exfds = 9 ∷ [] },
    )
unfolding step prepare_sets fill_sets recalc_maxfd_plus_one raise drop_sock
poll_writing = refl

-- A full list: the socket is not added.
add_to_full : step 3 2 (adds 7) (writing, no_sets) ≡ some (writing, no_sets)
unfolding step _add
add_to_full = refl
