-- ===== src/Lib.antt =====
-- The client of the repository (client/app, and the data of the charts of viz-lib): lists of items on
-- pages, query results, parameters, queries, widgets and dashboards, as functions on records, with the
-- theorems that make them correct.
--
-- How the parts interact. A list page keeps an items source, which asks a fetcher for the items of its
-- paginator's page in its sorter's order. A widget of a dashboard loads the result of its query, and
-- maps the parameters of the query to parameters of its own. A query reads its parameters off its text,
-- and running it makes a query result, which posts the query, polls its job, and loads the data. A
-- query's page shows the result of its latest execution; a dashboard collects the filters and the
-- parameters of its widgets, and saves their positions as they are edited.
--
-- - Js: JavaScript's values and parseInt, as far as the code uses them.
-- - ItemsList (client/app/components/items-list/classes): Paginator for Paginator.js, Sorter for
--   Sorter.js, Source for ItemsSource.js and, in Source/Fetch, ItemsFetcher.js. What _changed does
--   before its request, at the reply and at a failure are begin, reply and fail, on a task for each
--   request, so that replies may come in any order.
--   Storage is StateStorage.js, the state of a page in the URL.
-- - Location (client/app/services/location.js): update and the location that it leaves.
-- - QueryResult (client/app/services/query-result.js): Job for the object, its update and its errors,
--   Execution for the requests and timers as a step function on events, ColumnTypes and ColumnName for
--   the columns.
-- - Parameters (client/app/services/parameters): a class is a Kind, normalizeValue is normalize, and
--   the part of setValue that makes value is stored. Object has the parameter with its locals as a tree,
--   Pending the pending value, Values getExecutionValue, Url the URL's forms.
-- - Query (client/app/services/query.js): Names for collectParams, ParameterList for the class
--   Parameters, Preparation for prepareQueryResultExecution, its callers and getUrl.
-- - Widget (client/app/services/widget.js): Position, Mappings and Loading.
-- - DashboardGrid (client/app/services/dashboard.js): calculateNewWidgetPosition, and in Layout
--   prepareWidgetsForDashboard.
-- - Dashboard (client/app/services/dashboard.js, client/app/pages/dashboards/hooks/useDashboard.js):
--   Filters for collectDashboardFilters, Globals for getParametersDefs and the widgets it affects.
-- - QueryExecute (client/app/pages/queries/hooks/useQueryExecute.js): the hook's state and its
--   callbacks, a step function on events, in which the executions overlap.
-- - SchemaLoading (client/app/pages/queries/hooks/useDataSourceSchema.js): getSchema and the hook, a
--   step function on events.
-- - MappingInput (client/app/components/ParameterMappingInput.jsx): Editable for the conversions, Titles
--   for synchronizeWidgetTitles, Editor for the component MappingEditor.
-- - EditMode (client/app/pages/dashboards/hooks/useEditModeHandler.js): the hook's state, its timers and
--   saves, a step function on events.
-- - Dialog (client/app/components/DialogWrapper.jsx): openDialog.
-- - Router (client/app/components/ApplicationArea/Router.jsx): stripBase and the resolving of routes.
-- - Session (client/app/services/auth.js, user.js and policy/DefaultPolicy.js).
-- - Charts (viz-lib/src/visualizations): Series for chart/getChartData.js, Stacking for
--   chart/plotly/updateData.js, Counter for counter/utils.js, TableColumns for table/getOptions.js,
--   Cohort for cohort/prepareData.js.
-- - DynamicForm (client/app/components/dynamic-form/dynamicFormHelper.js): the fields of a form.
-- - Formats (client/app/lib/utils.js) and FilterInput (client/app/components/Filters.jsx).
-- - AutoHeight (client/app/components/dashboards/AutoHeightController.js).
-- - Shortcuts (client/app/services/KeyboardShortcuts.js).
-- - Pagination (client/app/lib/pagination/paginator.js).
-- - Prelude: shared names, lists and integers over the native numbers, and Boolean tests.
--
-- Numbers are integers or NaN, as pages, counts and sizes are; an object's field that may be absent is
-- an Option, and null and undefined are told apart where the code does. An array of objects that no
-- code changes in place is a list of values; where the code changes one that it also reads, as with the
-- titles of mappings, it is read from the state. Moments are valid and of the years 0 to 9999. lodash,
-- moment, Mustache, JSON, the HTTP requests and the handlers of the pages are parameters; what is assumed
-- of them stands in records (Lawful, LawfulUrl, LawfulCalendar, SortsBy, KeepsItems, KeepsOrder,
-- CountsUnit), each of which is filled by a concrete function in the tests. The functions are total by
-- recursion on their data, and none runs on fuel: a run
-- of requests and timers is a list of events.
--
-- Not modelled: the React views, the drawing of the visualizations with the texts of their points, the
-- HTTP calls that a service only passes on, the texts shown of dates and numbers, and the server.
pub mod Prelude
pub mod Js
pub mod ItemsList
pub mod QueryResult
pub mod Parameters
pub mod Query
pub mod Location
pub mod Widget
pub mod DashboardGrid
pub mod AutoHeight
pub mod Shortcuts
pub mod Pagination
pub mod QueryExecute
pub mod MappingInput
pub mod EditMode
pub mod Charts
pub mod Dashboard
pub mod Dialog
pub mod Session
pub mod Router
pub mod Formats
pub mod FilterInput
pub mod DynamicForm
pub mod SchemaLoading
