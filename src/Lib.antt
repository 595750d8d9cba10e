-- ===== src/Lib.antt =====
-- Verification of the super-admin web panel of a shop platform: the TypeScript code under web/src.
--
-- The panel is a React application in front of a Go backend (cmd, internal). Its parts, from the bottom:
-- the session store (web/src/lib/auth.ts) keeps the access token and the user and calls its listeners;
-- the transport (web/src/lib/http.ts) sends requests with that token, refreshes it once on a 401 and
-- ends the session when the backend refuses; each section under web/src/features has types.ts, api.ts
-- (the calls, translated from the backend's spelling), mock.ts (a store in memory that answers when
-- USE_MOCK is set), a file of query hooks and its page. web/src/lib/format.ts formats numbers and dates.
--
-- The files of this library and the code that they model:
--   Base, Text, Dict        what JavaScript gives: arrays, strings as lists of UTF-16 units, String(n),
--                           trim, includes, Map. Text/Email is the pattern of the email fields.
--   Session                 web/src/lib/auth.ts: Store holds the module's variables; setSession,
--                           clearSession, updateAccessToken, subscribeAuth and its return value.
--   Http                    web/src/lib/http.ts: request, its retry, doRefresh, parseErrorBody, the end
--                           of request. Payloads lists the types of the answers. SingleFlight is
--                           refreshPromise under any order of answers, as steps on a system of calls.
--                           Ends, Exchanges and Retry say what a response and a call can come to, as
--                           what is asked of the network and answered.
--                           Calls is how the api.ts files use request.
--   Auth                    web/src/features/auth/api.ts (login, logout, restoreSession), RequireAuth.tsx;
--                           Form is LoginPage.tsx, Form/Page how it is drawn.
--   Clients                 web/src/features/clients: Types (types.ts), Wire and Api (api.ts), Store and
--                           Demo (mock.ts), Keys and Queries (useClients.ts), Screen (ClientsPage.tsx,
--                           ClientsTable.tsx), Table (ClientsMetrics.tsx, columns.tsx), Form and Created
--                           (NewClientPage.tsx), Card (ClientPage.tsx), Access and Tabs (tabs/). The child
--                           Page of Screen, Form, Access and Tabs is how it is drawn. Journey is what a
--                           person can press on these pages, down to the store in memory. Store/Refinement is the
--                           abstract directory that the store stands for.
--   Tickets, Team, Settings, Overview, Journal
--                           the other sections: Types, Wire, Api, Store or Build, and Demo (mock.ts),
--                           Screen (the page's own state, filters, guards of the buttons and views),
--                           Listing (its texts, chips and rows). Page is the page as it is drawn, with
--                           its handlers, and Page/Session, of Tickets and Team, a visit of it.
--                           Settings/Journey is the page on the template in memory.
--   Cache                   the query hooks of all sections (use*.ts), with the defaults of App.tsx.
--   Markup                  web/src/components/ui: the parts of which a page is drawn, and what a person
--                           can do with them.
--   Shell                   web/src/components: AppShell.tsx, Sidebar.tsx, Topbar.tsx, Modal.tsx and the
--                           tones of the dots. Frame is what is drawn around every page.
--   App                     web/src/App.tsx: the routes behind the guard of the session.
--   Format                  web/src/lib/format.ts: plural, formatRelative, formatDelta, formatDate and
--                           parseRuDate.
--
-- State is passed explicitly: an operation takes a store and returns the new one with its result; a call
-- of the backend takes a World (the session's store and the network's state) and gives an Outcome, a
-- value or what was thrown. A page is a record of its useState variables with one function per
-- handler, and a function from that state and the query's state to what is shown: a choice of views, or
-- the list of the parts that are drawn, in which a gesture reaches only what is there and enabled. React
-- is taken to draw anew before the next gesture.
--
-- Parameters, for what is not code of the repository: Network (fetch and the backend behind it), lower
-- and upper (toLowerCase, toUpperCase), encode (encodeURIComponent), iso (toISOString),
-- instant (new Date(text).getTime()), midnight (the local day's beginning), fits (how the query
-- library matches keys), best (the router's choice of a pattern, with letter case and slashes at the
-- end of a path left to it), le (localeCompare), the clock's reading at an operation and the draws of
-- Math.random, each a number k below 2^53 that stands for k / 2^53, and the formats of Intl that
-- lib/format.ts calls (date, date_time, number, relative). The operations of a store in memory take any
-- state; the demo data of the mock.ts files are values of their own.
--
-- Bounds and fuel: numbers of the program are whole and non-negative where the code keeps them so, and
-- stay far below 2^53. The only fuel is in Text/Decimal: String(n) gets n + 1, which is enough because
-- each step divides by ten (read-show). All other loops are recursions on a list.
--
-- Not modelled: the Go backend, the SQL, the nesting of the markup and the styles, the library of
-- queries and tables (@tanstack), of which only the pages of a table are a parameter
-- (Clients/Screen/Page), the inside of the router, cancelling of requests, the icons and the class names
-- of web/src/components. In Journey a card shows the record that the store holds, so that
-- what a cached answer that is out of date would show is left out there; Cache says which answers are.
pub mod Base
pub mod Text
pub mod Dict
pub mod Format
pub mod Session
pub mod Markup
pub mod Shell
pub mod Http
pub mod Auth
pub mod Clients
pub mod Cache
pub mod App
pub mod Tickets
pub mod Team
pub mod Settings
pub mod Overview
pub mod Journal
