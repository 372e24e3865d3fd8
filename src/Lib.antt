-- ===== src/Lib.antt =====
-- The TypeScript of VOLQ-Auth, a licensing service: the React SDK that a customer's program embeds,
-- the web dashboard of the developers who sell the licenses, and the script that runs the server
-- and the dashboard side by side. They talk to a server, written in Go, which the model takes as a
-- parameter, an answer to each list of requests sent so far, but for one of its handlers.
--
-- The SDK (sdks/react/src). Sdk/Hwid.antt is hwid.ts: `get_browser_hwid` is `getBrowserHWID`, over
-- a record `Device` of what the function reads of the browser, and the storage. Sdk/Client.antt,
-- with Sdk/Client/Encoding.antt and Sdk/Client/Methods.antt, is the class `VolqAuthClient` of
-- client.ts: `init`, `authenticate_license`, `authenticate_user` and `get_variable` are its
-- methods, as actions on the fields of the object and a `World` (storage, requests sent, draws of
-- random bytes, reads of the clock) that may throw. `Platform`, in Sdk/Client/Interface.antt, holds
-- the functions of the browser that they call. Sdk/Provider.antt is volqAuth.tsx: the state of
-- `VolqAuthProvider`, and `run`, a list of its operations one after the other. Sdk/Overlap.antt is
-- both of them where the operations overlap: each stops at the `fetch` that it waits for, and the
-- replies come in any order. Sdk/Example.antt is sdks/react/examples/App.tsx: `screen` is what it
-- shows, and a press is one of the controls that it shows then. The provider calls the client, and
-- the client the fingerprint.
--
-- The dashboard (frontend/src). Dashboard/Types.antt is lib/types.ts. Dashboard/Api.antt and
-- Dashboard/BaseUrl.antt are lib/api.ts: `call` is one call of axios through both interceptors, on
-- a `Browser` (storage, path, redirect, requests sent). Dashboard/Auth.antt is lib/authContext.tsx,
-- and Dashboard/Auth/Overlap.antt the same where a refresh of the applications overlaps with what
-- else happens. Dashboard/Health.antt is app/api/health/route.ts, and Dashboard/NextConfig.antt is
-- frontend/next.config.js. The pages stand on Dashboard/Page.antt, which has the state of a page
-- beside the session and the shapes that their handlers share: Licenses (with Licenses/Row.antt for
-- a row of the table, and Licenses/Vault.antt for the page with the form that it holds), Users,
-- Variables, Files, Resellers, Logs, Overview, Login, Apps and Webhooks are app/*/page.tsx and
-- app/page.tsx; LicenseModal is components/LicenseModal.tsx, and Navigation the side bar, the top
-- bar, the card and the code block of components. An event of a page is one call of a handler, with
-- the answer of the browser's `confirm` as its argument. The theorems on a component stand in the
-- modules below it. Dashboard/Form.antt is what the forms of the pages share: a form is a list of
-- controls, rendered from the state of the page, each with its label, its rule, its value and its
-- handler; `enter` is a change of a control by the user, and `press_submit` the button of the form,
-- behind the check of the browser. Dashboard/Dialog.antt is what the dialogs share, which show most
-- of these forms over their page: what is rendered while the flag of the dialog is set, what its
-- buttons do, and `act_all` what the user does with it; Dashboard/Dialogs.antt has the dialogs of
-- the pages and Dashboard/Dialogs/Generate.antt that of the licenses. Dashboard/Tables.antt is what
-- the tables of the pages say, Dashboard/Overview/Cards.antt the cards of the overview, and
-- Dashboard/Docs.antt, with its children, app/docs/page.tsx: the snippets of code, line by line.
-- Dashboard/Visit.antt is a page below the top bar, in which another application may be chosen
-- between its events. Dashboard/Forms.antt and Dashboard/Pages.antt have the theorems on all forms
-- and on several pages. Dashboard/Loads.antt is what happens where the loads of a page overlap,
-- over a record `Loader` of what the page brings, which Dashboard/Loads/Pages.antt gives for each
-- page with one list.
--
-- The server (backend/internal). Backend/Update.antt is `UpdateApp` of
-- handler/dashboard_handler.go, from the body of the request to what it stores, with the condition
-- of service/client_auth_service.go under which a client's binary is refused. Its theorem puts it
-- together with the bodies that the pages of the dashboard send. A field of the request is found by
-- its exact name, which is what the dashboard sends.
--
-- The runner (index.js). Runner/Env.antt is `loadEnv`, over a function that reads the three files.
-- Runner/Ports.antt is the configuration that follows. Runner/Prepare.antt is
-- `resolveBackendCommand`, `getNextBinPath` and `ensureFrontendReady`, as actions that run commands
-- on a `Host` (Runner/Host.antt, a parameter: what exists, what succeeds) and may end the process.
-- Runner/Launch.antt is what `start` gives to `spawn`. Runner/Wait.antt is `waitForBackend`, as a
-- state that events move (an answer, a failure, a timeout, a timer); Runner/Process.antt is `start`
-- and `shutdown`, in the same way, with the two children and the signals that they get.
-- Runner/System.antt puts the two together, as `start` does: what follows the wait comes once the
-- polling has decided. Runner/Log.antt is `log` and the lines that the children print. The runner
-- hands its environment to frontend/next.config.js, which Runner/Launch/Proxy.antt composes with
-- it.
--
-- Base.antt passes on the names that all share. Its children hold what JavaScript does with texts,
-- numbers, `localStorage` and the values that JSON gives, and the monad of the handlers. A text is
-- a list of code points; its length counts UTF-16 units, as in the source. A number is a natural
-- number, or an integer where it may be negative; `Math.imul` keeps its wrap-around, as a remainder
-- by 2 ^ 32, and so do the bytes of a `Uint8Array`. `parseInt` gives the exact number, where
-- JavaScript rounds above 2 ^ 53, and what is entered into a control for numbers is a whole number.
-- No fuel is needed but for the digits of a number: a number is fuel enough for its own digits, as
-- each of them divides it.
--
-- But for what follows, a handler runs to its end before the next one, with the reload that it
-- starts, and reads the state of the last render. Three kinds of interleaving in the SDK and the
-- dashboard are modelled: the operations of the provider, the refreshes of the applications, and
-- the loads of the pages with one list; in the runner the events come in any order that the state
-- allows. What the timers of the runner wait for is not counted, as no theorem is on time. An
-- endpoint answers in its own shape or with an empty body, as far as a page takes the body for a
-- list; a body of another shape than the page reads counts as no list. What a browser, axios,
-- base64, JSON, the clock, the file system and the commands of a machine do are parameters.
--
-- Not modelled: the layout of the pages, with its icons and colours but those of the badges; of the
-- runner's own messages all but the shape of a line; the server, which is written in Go, but for
-- what is named above, the SDKs in other languages, and the scripts of deployment; a change of the
-- properties of the provider after its first render; the wait for a backend at a port that
-- `http.get` does not take, where the promise is rejected at once; and a list of applications that
-- is no list, which the server does not send. The context of the session holds texts and profiles
-- alone: a token that is no text is held as the text that is stored.
pub mod Base
pub mod Sdk
pub mod Dashboard
pub mod Runner
pub mod Backend
