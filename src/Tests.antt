-- ===== src/Tests.antt =====
-- Runs of the model at concrete inputs: shared data, and the theorems applied to it.
mod History
mod Store
mod Inputs
mod Requests
mod Workers
mod Served
mod Routing
mod Pages
mod Startup
mod System
mod Server
mod Panics
use qdt_test.Common.{Text, codes, ℕ, true, false, none, some, List, [], ◌∷◌}
use qdt_test.Store.Model.{VersionFields, Schedule, Status, Db}
use qdt_test.Store.Public.{PublicContent}
use qdt_test.Store.Tx.{Conn, healthy}
use qdt_test.Store.Schedules.{ClaimedJob}
use qdt_test.Store.History.{
  Call, creates, updates, publishes, unpublishes, schedules, cancels, claims, completes, fails,
  releases,
}

abbrev page : Text
page = codes "a"

abbrev timer : Text
timer = codes "s"

abbrev worker_1 : Text
worker_1 = codes "w1"

abbrev worker_2 : Text
worker_2 = codes "w2"

abbrev draft : VersionFields
draft = record {
  title = codes "T";
  body = codes "B";
  meta_title = [];
  meta_description = [];
  canonical_url = [];
  og_image_url = [];
  noindex = false;
}

abbrev redraft : VersionFields
redraft = record draft { title = codes "U" }

abbrev job : ClaimedJob
job = record { schedule_id = timer; content_id = page; version_id = 1 }

-- Content is created and edited, and the worker has claimed the publish of its first version.
abbrev opening : List (Conn × Call)
opening =
    (healthy, creates page (codes "hello") draft [] 10)
    ∷ (healthy, updates page 1 redraft [] 20)
    ∷ (healthy, schedules timer page 1 100 30)
    ∷ (healthy, claims worker_1 100 130 10)
    ∷ []

-- The same with the publish completed, and a second worker that comes late.
abbrev story : List (Conn × Call)
story =
    (healthy, creates page (codes "hello") draft [] 10)
    ∷ (healthy, updates page 1 redraft [] 20)
    ∷ (healthy, schedules timer page 1 100 30)
    ∷ (healthy, claims worker_1 100 130 10)
    ∷ (healthy, completes job worker_1 105)
    ∷ (healthy, completes job worker_2 110)
    ∷ []

abbrev done_row : Schedule
done_row = record {
  id = timer;
  content_id = page;
  version_id = 1;
  run_at = 100;
  status = Status.done;
  attempts = 1;
  locked_by = none;
  lock_expires_at = none;
  last_error = [];
  created_at = 30;
  updated_at = 105;
}

abbrev page_2 : Text
page_2 = codes "b"

abbrev timer_2 : Text
timer_2 = codes "t"

abbrev job_2 : ClaimedJob
job_2 = record { schedule_id = timer_2; content_id = page_2; version_id = 2 }

-- Two publishes that fall due one after the other.
abbrev queue : List (Conn × Call)
queue =
    (healthy, creates page (codes "hello") draft [] 10)
    ∷ (healthy, creates page_2 (codes "world") draft [] 11)
    ∷ (healthy, schedules timer page 1 100 30)
    ∷ (healthy, schedules timer_2 page_2 2 110 31)
    ∷ []

-- The first version is published, and a second one is edited after it.
abbrev live : List (Conn × Call)
live =
    (healthy, creates page (codes "hello") draft [] 10)
    ∷ (healthy, publishes page 1 [] 40)
    ∷ (healthy, updates page 1 redraft [] 50)
    ∷ []

abbrev live_page : PublicContent
live_page = record {
  slug = codes "hello";
  title = codes "T";
  body = codes "B";
  fields = draft;
  published_at = 40;
  updated_at = 50;
}
