-- ===== src/ProblemEditor.antt =====
-- frontend/src/app/manager/problems/page.tsx: the page on which a manager writes problems, its
-- state and what it may ask of the server.
pub mod Groups
pub mod Payload
pub mod Handlers
pub mod Events
pub mod Distinct
pub mod Ids
pub mod Reopen
pub mod Reachable
pub mod Keys
pub mod Files
pub mod Submit
pub mod Race
pub mod Position
mod Tests
use jjudge.Prelude.{ℕ, ◌+◌, Bool, true, false, List, [], ◌∷◌, Option, none, some, Text, lit}
use jjudge.Async.{Task}

-- A file that the user chose; the page only passes it on.
abbrev pub File : Type 0
File = ℕ

-- What the server sends; a field may be missing.
pub record ApiTestcase : Type 0 where
  pub in_key : Option Text
  pub out_key : Option Text

pub record ApiGroup : Type 0 where
  pub testcases : Option (List ApiTestcase)

pub record Problem : Type 0 where
  pub id : ℕ
  pub title : Option Text
  pub description : Option Text
  pub difficulty : Option ℕ
  pub time_limit : Option ℕ
  pub memory_limit : Option ℕ
  pub tags : Option (List Text)
  pub visibility : Option Text
  pub approval_status : Option Text
  pub testcase_groups : Option (List ApiGroup)

-- What the form edits. An id is what `crypto.randomUUID()` gave.
pub record Testcase : Type 0 where
  pub id : ℕ
  pub ordinal : ℕ
  pub in_file : Option File
  pub out_file : Option File

pub record TestcaseGroup : Type 0 where
  pub id : ℕ
  pub ordinal : ℕ
  pub name : Text
  pub points : ℕ
  pub testcases : List Testcase

pub data Visibility : Type 0 where
  public private : Visibility

pub data UploadMode : Type 0 where
  individual zip : UploadMode

-- The page's `useState` variables. `supply` stands for the random UUIDs: each is a fresh number.
pub record Editor : Type 0 where
  pub problems : List Problem
  pub loading : Bool
  pub loading_problem : Bool
  pub error : Option Text
  pub editing_id : Option ℕ
  pub title : Text
  pub description : Text
  pub difficulty : ℕ
  pub time_limit : ℕ
  pub memory_limit : ℕ
  pub tags : Text
  pub visibility : Visibility
  pub groups : List TestcaseGroup
  pub upload_mode : UploadMode
  pub zip_file : Option File
  pub submit_status : Option Text
  pub supply : ℕ

-- The metadata that is sent with a problem. A group's testcases are left out where they come in
-- an archive.
pub record TestcaseMeta : Type 0 where
  pub ordinal : ℕ
  pub in_key : Text
  pub out_key : Text

pub record GroupMeta : Type 0 where
  pub ordinal : ℕ
  pub name : Text
  pub points : ℕ
  pub testcases : Option (List TestcaseMeta)

pub record Metadata : Type 0 where
  pub title : Text
  pub description : Text
  pub difficulty : ℕ
  pub time_limit : ℕ
  pub memory_limit : ℕ
  pub tags : List Text
  pub visibility : Visibility
  pub testcase_groups : List GroupMeta

-- `FormData`: its entries in the order in which they are appended.
pub data Entry : Type 0 where
  json : Metadata → Entry
  file : File → Entry

abbrev pub FormData : Type 0
FormData = List (Text × Entry)

-- The requests, each with its bearer token.
pub data Request : Type 0 where
  list_problems : Text → Request
  get_problem : Text → ℕ → Request
  post_problem post_zip : Text → FormData → Request
  put_problem put_zip : Text → ℕ → FormData → Request

-- What the promise of a request gives: `none` where it is rejected. The list may lack its `items`,
-- and the detailed problem may be null.
abbrev pub Answer : Request → Type 0
Answer (list_problems t) = Option (Option (List Problem))
Answer (get_problem t i) = Option (Option Problem)
Answer (post_problem t f) = Option (Unit {0})
Answer (post_zip t f) = Option (Unit {0})
Answer (put_problem t i f) = Option (Unit {0})
Answer (put_zip t i f) = Option (Unit {0})

abbrev pub Handler : Type 0
Handler = Task Request Answer Editor (Unit {0})
