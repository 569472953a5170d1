-- ===== src/Lib.antt =====
-- Verification of the expense-saas client (frontend/src) and of the report workflow that it talks to
-- (internal).
--
-- The parts, from the inside out, and the files that model them. A definition has the name of the
-- function it translates, in lower case with underscores (handleAddModeSubmit is
-- handle_add_mode_submit).
--
--   Prelude      shared names, Boolean tests on numbers and texts, lists measured by numbers.
--   Types        frontend/src/api/types.ts: the role, the status, the validation error.
--   Store        frontend/src/stores/auth.ts: the two tokens in memory and in sessionStorage. A
--                storage is a list of entries that may be unavailable; Reload is about a page that
--                is loaded again.
--   Messages     frontend/src/lib/error-messages.ts: the message of an error code.
--   Client       frontend/src/api/client.ts: one call of apiClient from request to result. The
--                function `fetch` is a parameter, which sees the log of all requests before it, so
--                a server may answer as it likes. Client/SingleFlight models refreshAccessToken
--                under concurrent callers: a schedule is a list of calls, answers and continuations.
--   Workflow     internal/domain/report.go with internal/service: the transitions of a report behind
--                the checks of the routes (cmd/server/main.go), of the handler of a rejection
--                (internal/handler/workflow.go) and of the services.
--   Actions      frontend/src/pages/reports/ReportActionBar.tsx, OwnerActions.tsx, WorkflowActions.tsx
--                and ItemListSection.tsx: the buttons; Actions/Served sets them against Workflow.
--   Period       frontend/src/pages/reports/ItemForm.tsx: the check of a date against the period.
--   ItemForm     the same file: the schema of an item, the warning and the callbacks;
--                ItemForm/Display has its fields and buttons.
--   ItemPanel    frontend/src/pages/reports/ItemSlidePanel.tsx: closing and the question before it;
--                ItemPanel/AddMode is handleAddModeSubmit, the saving of a new item and its files, as
--                the list of its effects, and ItemPanel/Saved what these do to the panel.
--                ItemPanel/Display is what the panel shows in each of its modes.
--   Uploader     frontend/src/pages/reports/AttachmentUploader.tsx: the check of a file and the files
--                that wait, with the object URLs of the browser. Uploader/Widget is the component as a
--                whole in its three modes, with the hook of Upload and the callbacks to its parent;
--                Uploader/Widget/Display says what it shows.
--   Upload       frontend/src/hooks/useUploadAttachment.ts: the controller that aborts an upload.
--                Upload/Deletion is frontend/src/hooks/useDeleteAttachment.ts, the same code.
--   AttachmentArea  frontend/src/pages/reports/AttachmentArea.tsx: uploads and deletions on an item.
--                AttachmentArea/AddMode is AttachmentAreaAddMode under the panel that owns its files,
--                AttachmentArea/Display what the area shows.
--   Texts        the texts and numbers of the URL: parseInt, String, and which texts count as false.
--   AttachmentList  frontend/src/pages/reports/AttachmentList.tsx and frontend/src/lib/format.ts: the
--                preview, the download and the size of a file. A refetch that fails may still carry
--                the data of its last success.
--   Pagination   frontend/src/components/ui/AppPaginationFooter.tsx, PageSizeSelector.tsx and the
--                handlers that write the query of the URL.
--   Hooks        frontend/src/hooks: the key and the request of each query, and in Hooks/Changes the
--                request of each mutation and the keys that it invalidates. Hooks/Screens says which
--                role opens which query and which reports the server selects for it
--                (db/queries/expense_reports.sql), Hooks/Renewal which screens ask again, apart for
--                those that are on the screen when a change is made and those that are opened
--                later. How the query client compares keys is a parameter.
--   ListPages    the pages of lists and their URL: frontend/src/pages/reports/ReportListPage.tsx,
--                frontend/src/pages/admin/AllReportsPage.tsx, and in ListPages/Names the pages with a
--                debounced filter, ApprovalListPage.tsx and PaymentListPage.tsx of
--                frontend/src/pages/workflow. The timer is a value that waits to be taken over.
--                ListPages/FilterBar is AllReportsFilterBar.tsx of frontend/src/pages/admin.
--                ListPages/Toasts is the effect that reports a failed query, ListPages/Workflow the
--                tables, rows and parts of the pages for approval, payment and processed reports.
--   Navigation   frontend/src/App.tsx, frontend/src/components/layout/AppSidebar.tsx and the guards
--                of the pages for a role.
--   Dashboard    frontend/src/pages/dashboard/DashboardPage.tsx and the cards of
--                frontend/src/components/dashboard, with their links; Dashboard/Links sets these
--                against what the server counts (internal/service/dashboard_service.go) and lists.
--   Auth         frontend/src/components/auth/PrivateRoute.tsx, the hooks and pages for signing in
--                and out and for a new password, over Store; Auth/Schemas has their validation, with
--                the test of an e-mail address as a parameter. How the router reads a path with its
--                query is a parameter.
--   ReportForm   frontend/src/components/report/ReportForm.tsx and ReportPeriodField.tsx, and the
--                pages ReportCreatePage.tsx and ReportEditPage.tsx of frontend/src/pages/reports. An
--                object has an identity, which the effect on `defaultValues` compares.
--   ConfirmDialog  frontend/src/components/ui/ConfirmDialog.tsx and frontend/src/hooks/usePrevious.ts.
--   ReportPage   frontend/src/pages/reports/ReportDetailPage.tsx: the page that holds the buttons of
--                Actions, three dialogs of ConfirmDialog and the panel. Its events are those of the
--                user and the answers of the server; the dialogs and the panel cover the page.
--   Ui           the base components of frontend/src/components/ui: SubmitButton.tsx, AppTextField.tsx,
--                AppSelect.tsx, FormAlert.tsx, StatusChip.tsx and AppToast.tsx.
--
-- State is passed explicitly. A component is a record of its state with one function per handler,
-- and a step function over the events that reach it; an event that the screen does not offer
-- changes nothing. Numbers are natural numbers. Texts that are compared or measured are lists of
-- code units, others are strings. The loops run over lists. One needs fuel: the digits of
-- String (Texts), for which the number itself is enough, since each round divides it by ten.
--
-- Not modelled: layout, the React runtime, react-query, the router and the form library, of which
-- only the documented behaviour is used (an onSuccess or onError after each request, a handler of a
-- form that runs on valid values only, an effect that runs where a dependency is another value); the
-- tables of the other lists and the cards of a report, which lay out data; the text of an amount or a
-- date, which the browser formats; the database.
pub mod Prelude
pub mod Store
pub mod Types
pub mod Messages
pub mod Client
pub mod Workflow
pub mod Actions
pub mod Period
pub mod ItemForm
pub mod ItemPanel
pub mod Uploader
pub mod ConfirmDialog
pub mod ReportPage
pub mod Upload
pub mod Pagination
pub mod AttachmentArea
pub mod Texts
pub mod Hooks
pub mod ListPages
pub mod Auth
pub mod Navigation
pub mod ReportForm
pub mod AttachmentList
pub mod Dashboard
pub mod Ui
