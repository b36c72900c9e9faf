-- ===== src/Server/Tests.antt =====
-- The theorems on the request list at concrete inputs. (core_server.c)
use open_tube_engine_old.Base.{ℕ, ◌≡◌, refl, List, [], ◌∷◌, some, none, arith}
use open_tube_engine_old.Server.Requests.{
  Slot, event_find_request, event_fetch_request, free_idle, find_serving, take_idle,
}
use open_tube_engine_old.Server.Requests.Serves.{IsVector, Finds, event_find_request-Finds}
use open_tube_engine_old.Server.Requests.Fetch.{Fetched, event_fetch_request-Fetched}

abbrev serving_7 : Slot ℕ
serving_7 = record { sock = some 7; body = 100 }

abbrev idle_slot : Slot ℕ
idle_slot = record { sock = none; body = 200 }

abbrev serving_9 : Slot ℕ
serving_9 = record { sock = some 9; body = 300 }

abbrev slots : List (Slot ℕ)
slots = serving_7 ∷ idle_slot ∷ serving_9 ∷ []

slots-IsVector : IsVector slots
slots-IsVector t = ground arith

-- Socket 8 gets the idle structure.
event_find_request-Finds_example : Finds 8 slots (event_find_request 8 slots)
event_find_request-Finds_example = event_find_request-Finds 8 slots slots-IsVector

find_8 :
    event_find_request 8 slots
    ≡ (some 1, serving_7 ∷ record { sock = some 8; body = 200 } ∷ serving_9 ∷ [])
unfolding event_find_request find_serving take_idle
find_8 = refl

busy-IsVector : IsVector (serving_7 ∷ serving_9 ∷ [])
busy-IsVector t = ground arith

-- All are busy: socket 8 gets a new structure.
event_fetch_request-Fetched_example :
    Fetched 50 8
      (serving_7 ∷ serving_9 ∷ [])
      (event_fetch_request 50 8 (serving_7 ∷ serving_9 ∷ []))
event_fetch_request-Fetched_example =
    event_fetch_request-Fetched 50 8 (serving_7 ∷ serving_9 ∷ []) (omega arith) busy-IsVector

fetch_8 :
    event_fetch_request 50 8 (serving_7 ∷ serving_9 ∷ [])
    ≡ some (2, serving_7 ∷ serving_9 ∷ record { sock = some 8; body = 50 } ∷ [])
unfolding event_fetch_request find_serving take_idle
fetch_8 = refl

free_1 : free_idle 1 slots ≡ some (serving_7 ∷ serving_9 ∷ [])
unfolding free_idle
free_1 = refl
