-- ===== src/Lib.antt =====
-- Verification of the web front end of the Adscope Portal (portal/web/app), which administers the
-- directory, the domains and the OAuth clients of an identity server, and where users sign in, edit
-- their contact data and confirm authorization requests.
--
-- The parts and their files:
--   Types.antt        portal/web/app/types/{admin,user,oidc}.ts, one record or data type for each
--                     interface; a missing value is `none`.
--   Forms.antt        portal/web/app/utils/forms.ts: blankDomainForm, blankOuForm, blankUserForm,
--                     blankGroupForm, nullable, splitMembers.
--   Directory.antt    portal/web/app/utils/directory.ts: sortOus, flattenOus, ouName, buildOuTree.
--                     The map from parents to children is an association list in the order of
--                     insertion, and the set of visited identifiers a list that the nested calls
--                     pass on. `localeCompare` is the parameter `Collation`.
--   Oidc.antt         portal/web/app/utils/oidc.ts: resolveAuthorizationContinue and
--                     authorizationFormFields, and the inputs of the form in
--                     portal/web/app/pages/authorize.vue. The class `URL` is a parameter.
--   UserApi.antt      portal/web/app/composables/useUserApi.ts, every operation. The refs and the
--                     browser's storage are the record `Store` of UserApi/State.antt, with the
--                     notifications shown so far.
--   AdminApi.antt     portal/web/app/composables/useAdminApi.ts: the store (AdminApi/State.antt),
--                     adminFetch and runAction; in AdminApi/Loads.antt the loads; in
--                     AdminApi/Signing.antt loadDirectory, loadAll, both refreshes, restoreSession,
--                     authenticateToken and logout; in AdminApi/Clients.antt the operations on OAuth
--                     clients.
--                     `encodeURIComponent` and the message of a `TypeError` are parameters.
--   ClientsPage.antt  portal/web/app/pages/admin/clients.vue: the refs of the page, openEditor, the
--                     checks of saveClient and the requests that it and toggleClient send, and
--                     redirectSummary of portal/web/app/components/oauth/OAuthClientTable.vue; in
--                     ClientsPage/Programs.antt saveClient, toggleClient, removeClient,
--                     regenerateSecret, copySecret and refreshClients.
--   DirectoryPage.antt  portal/web/app/pages/admin/directory.vue: the refs of the page, the watch of
--                     the units, the openings and closings of its editors and the test of removeOu;
--                     in DirectoryPage/Requests.antt the bodies of the requests; in
--                     DirectoryPage/Programs.antt openUserEditor, saveOu, saveUser, saveGroup and
--                     resetUserPassword; in DirectoryPage/Removals.antt ouForNode, editOuNode,
--                     removeOuNode, removeOu and removeUser; in DirectoryPage/Options.antt
--                     selectedKeys and what the editors in portal/web/app/components/directory offer.
--   DomainsPage.antt  portal/web/app/pages/admin/domains.vue: the refs of the page, openEditor, and
--                     the body that saveDomain sends and the refs that it writes; in
--                     DomainsPage/Programs.antt saveDomain, copySyncerKey and refreshDomains.
--                     The templates of the three pages, with the tables and editors of
--                     portal/web/app/components/{oauth,directory,domains}, stand in ClientsPage/View.antt,
--                     DirectoryPage/View.antt with View/Editors.antt and View/Shown.antt, and
--                     DomainsPage/View.antt. AdminShell/Pages.antt brings them together.
--   AdminShell.antt   portal/web/app/components/admin/AdminShell.vue: the navigation bar; in
--                     AdminShell/Programs.antt submitCredential and exitManagement.
--   MePage.antt       portal/web/app/pages/me.vue: its refs, what it shows and its forms; in
--                     MePage/Programs.antt its handlers, and exitUser of
--                     portal/web/app/components/user/UserShell.vue; in MePage/View.antt the
--                     templates of both.
--   LoginPage.antt    portal/web/app/pages/login.vue: its refs and the target of a login; in
--                     LoginPage/Programs.antt its handlers, in LoginPage/View.antt its template.
--   AuthorizePage.antt  portal/web/app/pages/authorize.vue: its refs, its messages and what it shows;
--                     in AuthorizePage/Programs.antt loadAuthorizationContext and switchAccount, in
--                     AuthorizePage/View.antt its template.
--                     `JSON.stringify` and `String` are a parameter.
-- The refs of the pages are part of the store of the session that they use, in the field `refs`: so a
-- page runs its handlers in every interleaving with its own other ones and those of the session. The
-- dialog of useConfirm, the clipboard and `navigateTo` are calls, answered in any way. The calls of
-- authorize.vue carry the number of the reading that makes them, which the browser does not see.
-- They stand on:
--   Prelude.antt      names of the libraries, lists, equality tests and association lists.
--   Text.antt         trim, split and join on strings of code points; the blanks are those that
--                     `String.prototype.trim` removes.
--   Async.antt        asynchronous programs. A program is a tree of reads, writes and awaited calls;
--                     `Machine` is the event loop, which starts programs and resumes any that waits
--                     with any outcome of its call, and `Promise.all` settles by the first failure
--                     while the others run on. `Rules` derives an invariant of every interleaving
--                     from what each stretch between two waits keeps, and `Triples` does so from the
--                     combinators; `Sends` lists the calls of a program whose store may change while
--                     it waits, and `first_call` gives the first of them; `Alone` runs a program that
--                     nothing interrupts.
--   View.antt         what a page shows: a template is the list of its titles, texts, buttons, forms,
--                     fields and tables, with `v-if` and `v-for` as functions. Each page names the
--                     intents of its handlers, and its `perform` gives the program of each.
--
-- The operations share the store: a page starts them without waiting for one another, so the calls
-- of one run between those of another. A reply is any value of the type that the code casts
-- `response.json()` to, or a failure; only its type is assumed. The browser's storage is written by
-- this page only.
--
-- Bounds: pushChildren and build recurse on fuel that counts nested calls, one for each unit of the
-- list and one more. This is enough because every nested call follows the visit of a unit that was
-- not visited before.
--
-- Not modelled: layout, styles, icons and the theme; the frame that AdminShell draws around a page,
-- apart from its navigation bar and its form; the pages that only redirect; the generated bundles in
-- portal/static; and the servers and agents in Rust (portal/src, core, crates, syncer), which answer
-- the calls. A clipboard is taken to be there. A page that the user leaves is not removed from the
-- store. The components of @stellar/ui are taken to do nothing but show what they are given and to
-- call their handlers, unless they are disabled.
pub mod Prelude
pub mod Text
pub mod Types
pub mod Forms
pub mod Directory
pub mod Oidc
pub mod View
pub mod Async
pub mod AuthorizePage
pub mod MePage
pub mod LoginPage
pub mod UserApi
pub mod AdminApi
pub mod AdminShell
pub mod ClientsPage
pub mod DirectoryPage
pub mod DomainsPage
