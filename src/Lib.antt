-- ===== src/Lib.antt =====
-- jjudge, the web front end of a programming contest judge.
--
-- The front end (frontend/src) is a Next.js application. Its pages keep their state in React state
-- variables, ask an HTTP API for data, and share one session store. The development models the parts
-- that carry logic of their own:
--
--   * Auth (frontend/src/lib/auth.ts): the session store. Auth/Token decodes a token and reads its
--     expiry, Auth/Store has the store (authState, cachedSnapshot, listeners, expiryTimer, the item in
--     local storage) with setAuth, clearAuth, getAuthSnapshot, subscribeAuth, useAuth and the timer's
--     callback (tick). Auth/Guard is frontend/src/components/auth-guard.tsx with the layouts under
--     frontend/src/app/admin and frontend/src/app/manager.
--   * SignIn (frontend/src/app/login/page.tsx, frontend/src/app/register/page.tsx): the two forms that
--     put an account into the session store.
--   * Navbar (frontend/src/components/navbar.tsx): the links by role and the account menu.
--   * ProblemEditor (frontend/src/app/manager/problems/page.tsx): the page on which a manager writes
--     problems and their testcases. Groups has the operations on the testcase groups, Payload the
--     metadata and the form data of a submission, Handlers the asynchronous handlers, Events what the
--     page offers and when.
--   * ProblemBrowser (frontend/src/app/problems/page.tsx, problems-client.tsx): the list of problems
--     with its search, difficulties and tags.
--   * Submissions (frontend/src/components/submission-detail.tsx and
--     frontend/src/app/problems/[id]/submissions/mine/page.tsx): a submission, and one's own ones for
--     a problem, which are asked for again by an interval until they are judged. Polling is the effect
--     that both share, Detail and Mine are the two components, Format has the texts of numbers and Results
--     the table of the testcases' results.
--   * SubmissionForm (frontend/src/app/problems/[id]/submission-form.tsx and
--     frontend/src/app/contests/[id]/problems/[problemId]/contest-submission-form.tsx): the forms that
--     send a solution.
--   * Contest (frontend/src/app/contests/[id]/contest-body.tsx): the page of a contest before, during
--     and after it.
--   * ContestManager (frontend/src/app/manager/contests/page.tsx): the page on which a manager plans
--     contests and chooses their problems.
--   * ContestDetail (frontend/src/app/manager/contests/[id]/page.tsx): the page of one contest of a
--     manager.
--   * RegisterButton (frontend/src/app/contests/[id]/register-button.tsx): the registration for a
--     contest.
--   * Approvals (frontend/src/app/admin/approvals/page.tsx): the queues of an administrator.
--   * AdminProblems, AdminContests, AdminUsers (frontend/src/app/admin/problems/page.tsx,
--     frontend/src/app/admin/contests/page.tsx, frontend/src/app/admin/users/page.tsx): the pages of
--     administrators. The first two repeat the pages of managers over requests of their own, and their
--     models take from ProblemEditor and ContestManager what has the same text.
--   * BlogEditor (frontend/src/app/manager/blog): the list of posts, and the forms for a new post
--     (Create) and an old one (Edit).
--   * Profile (frontend/src/app/profile/[username]): the page of a user, and in Edit the page on which
--     users edit their own.
--   * ProblemContent (frontend/src/app/problems/[id]/problem-content.tsx): the page of a problem.
--     InContest is the page of a problem in a contest
--     (frontend/src/app/contests/[id]/problems/[problemId]/page.tsx).
--   * SubmissionLists (frontend/src/app/submissions/page.tsx,
--     frontend/src/app/problems/[id]/submissions/page.tsx,
--     frontend/src/app/contests/[id]/submissions/page.tsx): the lists of everybody's submissions.
--   * SubmissionPage (frontend/src/app/submissions/[submissionId]/page.tsx,
--     frontend/src/app/problems/[id]/submissions/[submissionId]/page.tsx): the page of one submission,
--     and in InContest that of a submission to a contest
--     (frontend/src/app/contests/[id]/submissions/[submissionId]/page.tsx).
--   * ContestList (frontend/src/app/contests/page.tsx): the list of contests.
--   * Leaderboard (frontend/src/app/contests/[id]/leaderboard/page.tsx): the results of a contest.
--   * Theme (frontend/src/components/theme-provider.tsx, frontend/src/app/layout.tsx): the light and the
--     dark theme, which the script of the layout sets before the provider does.
--   * Blog (frontend/src/app/blog): the public list of posts and the page of a post.
--   * Sidebar (frontend/src/app/admin/sidebar.tsx, frontend/src/app/manager/sidebar.tsx): the links beside
--     the pages of administrators and of managers.
--   * Routes: the addresses that a page answers to, one for each folder with a page.tsx under
--     frontend/src/app, against the links that the other modules have. An address is absolute where it
--     begins with one slash, and plain where it consists of letters, digits, dashes, underscores and
--     slashes; in any other a browser may read a host, a query, a fragment or another folder, and of it
--     nothing is claimed. Plain puts plain addresses together, Addresses has their forms, Links the
--     links that depend on data, Fixed those of the bars.
--   * Api (frontend/src/lib/api.ts): the client that sends all requests. The other parts see it as the
--     requests that they send, and as the answers or errors that they get.
--
-- Async is the machine that the pages' handlers run on. A handler is a Task: it updates the page's
-- state and awaits answers of the server. The code between two awaits is one step, as in JavaScript;
-- Async/Run runs one handler against an oracle that gives every answer, Async/Schedule interleaves
-- any number of them, the answers arriving in any order; Async/Simulation relates two pages of which
-- one does what the other does. Where a handler reads a state variable, it
-- reads the one of the render that it closes over, which is an argument of the handler; a call of a
-- state setter with a function updates the state of the moment. A request that the server refuses or
-- that is lost is the answer `none`.
--
-- Numbers are natural numbers: a token's `exp` that is negative or a fraction, and negative points,
-- ordinals and limits, are outside the model. Times are milliseconds since 1970. The delay of
-- setTimeout is taken as the 32-bit integer that browsers make of it. Texts are lists of UTF-16 code
-- units; letter case is that of ASCII. Keys of crypto.randomUUID are numbers from a supply that never
-- gives one twice.
-- All functions are structurally recursive or straight-line, but for the digits of a number
-- (Prelude/Decimal), whose fuel is one more than the number: value-to_string shows that it is enough.
--
-- Parameters, for what is not in the repository: Platform (atob with JSON.parse, and Number),
-- `iso` (new Date(text).toISOString(), which depends on the local time zone), Highlighter (the package
-- that highlights code), and the answers of the server. Rendering, styles, locale formatting of dates,
-- the router and the Go services are not modelled, nor are the home page and the interface elements.
pub mod Prelude
pub mod Async
pub mod Auth
pub mod SignIn
pub mod Navbar
pub mod ProblemEditor
pub mod ProblemBrowser
pub mod Submissions
pub mod SubmissionForm
pub mod Contest
pub mod RegisterButton
pub mod ContestManager
pub mod ContestDetail
pub mod Approvals
pub mod AdminProblems
pub mod AdminContests
pub mod AdminUsers
pub mod BlogEditor
pub mod Profile
pub mod ProblemContent
pub mod SubmissionLists
pub mod SubmissionPage
pub mod ContestList
pub mod Leaderboard
pub mod Theme
pub mod Blog
pub mod Sidebar
pub mod Routes
pub mod Api
