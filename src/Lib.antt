-- ===== src/Lib.antt =====
-- Shyft keeps time-series by an id, and serves them to hydrological models and clients. This
-- library models ten parts of it, all from the directory `core`.
--
-- * Times and periods, `core/utctime_utilities.h`: `Utc` has `utctime`, its special values and
--   `utcperiod`. A time is a signed 64-bit number of seconds, here an integer: a sum of times
--   that leaves the 64 bits, which is undefined in the source, is an integer like any other here.
-- * The calendar, `core/utctime_utilities.h` and `core/utctime_utilities.cpp`: `Calendar.Days` has
--   dates and day numbers, `Calendar.Zone` the time zones with their tables of summer time,
--   `Calendar.Units` the coordinates of a time (year, month, day, hour, minute, second) and the way
--   back, `Calendar.Weeks` the same for iso weeks, and `Calendar.Steps` the arithmetic in calendar
--   units: `trim`, `add` and `diff_units`. Day numbers below 0 and from 2 ^ 29 on are left out, and
--   `undefined` stands for them; a conversion to a narrower integer keeps its wrap-around.
-- * Expressions of time-series, `core/time_series_dd.h` and `core/time_series_dd.cpp`:
--   `Expressions.Tree` has the tree of the classes that implement `ipoint_ts`, and what of binding
--   each class does: `needs_bind`, `do_bind`, the search for references and the checks before the
--   time-axis is read. `Expressions.Binding` binds references, and `Expressions.Operators` computes
--   the values of the binary operations, over a parameter for `double`. The time-axes themselves are
--   not in the tree: a `bound` flag stands for each that is set.
-- * Time-axes, `core/time_axis.h`: `TimeAxis.Fixed` has `fixed_dt` (a start, a step and a count)
--   and `TimeAxis.Point` has `point_dt` (a vector of points and an end). `TimeAxis.Calendar` has
--   `calendar_dt`, the steps of a calendar, which calls `Calendar.Steps`. `TimeAxis.Generic` has
--   `generic_dt`, one of the three, less its equality. The steps of `fixed_dt` and `calendar_dt` are
--   natural numbers; negative ones are left out. `std::string::npos` is `none`.
--   `TimeAxis.Periods` and `TimeAxis.SubPeriods` have the axes with holes, `period_list` and
--   `calendar_dt_p`. `TimeAxis.Combine` has `combine`, the axis of the periods in which two axes overlap
--   (`TimeAxis.Sparse`, where one of them may have holes), and
--   `TimeAxis.Extend` has `extend`, one axis up to a time and another one from there on; the templates
--   for two axes without holes take each as a `generic_dt`. `TimeAxis.Merge` merges two axes: `compute_merge_info`, and `merge` of fixed and point axes,
--   each with the check by `can_merge` that its caller makes.
-- * The cache of the time-series server, `core/dtss_cache.h`: `Cache.Fragments` is `mini_frag`, the
--   fragments of one time-series; `Cache.Lru` is `lru_cache`, a bounded map with its keys in the
--   order of their last use; `Cache.Store` is `cache`, which puts the two together and counts hits
--   and misses. Its fragment type is a template parameter in the source, and the record
--   `Cache.Fragments.Fragment` here: its operations, with what the source asks of them as laws.
--   The methods of `cache` each hold its lock, so each is one step on the state.
-- * The file database of the server, `core/dtss_db.h`: `Database` has a file (its header, its time-axis,
--   its values), `Database.Read` writes a series to a file and reads a period of it back,
--   `Database.Merge` is `do_merge`, and `Database.Save` is `save` with the check before a merge. Bytes,
--   names and directories of files are left out: the file of a series is there or not. Of a time zone
--   the file has the name, `Calendar.Zone.TzName`, and `lookup_calendar` finds the zone again: one of
--   whole hours, or a region of the table `tzdef`, which is a parameter, with the zones that boost makes
--   of its descriptions.
-- * The point merge of time-series, `core/time_series_point_merge.h`: `Series` has `point_ts` as a
--   vector of points with an end, and `ts_point_merge`.
-- * The forecast merge, `core/time_series_merge.h`: `Series.Forecast` has `forecast_merge`, on the same
--   series.
-- * The river network, `core/routing.h`: `Routing.Network` has `river_network`, the rivers by id with
--   the id that each flows into, and its methods; `Routing.Maps` has `std::map` with such keys. A
--   method that throws also says what it leaves behind. A `double` is any type there. The search for
--   a cycle has fuel for as many steps as there are rivers and one more, the recursion upstream for
--   two more; no network without cycles uses them up.
-- * The time-series server, `core/dtss.h`, `core/dtss.cpp` and `core/dtss_url.h`: `Server.Url` has its
--   urls, `Server.Requests` its containers and callbacks with `do_find_ts`, `Server.Read`,
--   `Server.Store` and `Server.Bind` the requests to read, to store and merge, and to bind
--   expressions. It calls the cache and the expressions above. The callbacks of a client are
--   arguments, and so are the file database of a container (the record `Server.Requests.TsDb`), the
--   point merge of two series and the order in which a hash map is walked.
--
-- A call returns `ok`, throws, or is undefined (`Prelude.Outcome`): a read past the end of a
-- vector, an inverted iterator range, a list node that is not in its list. A property that a call
-- returns also says that none of these happens. Loops recurse on the vector they run over, or on a
-- count that the source has: `Lru.evict_down` on the number of entries, of which each round takes
-- one away, and the searches of `TimeAxis.Point` on the rounds that are left.
--
-- Not modelled: the other parts of `core` (the text of times, the database of time zones, the other
-- expressions, the names of files and the messages of the server, the hydrological models, which compute in floating
-- point), the bindings and the Python packages.
pub mod Prelude
pub mod Utc
pub mod Calendar
pub mod Expressions
pub mod Cache
pub mod Database
pub mod TimeAxis
pub mod Routing
pub mod Series
pub mod Server
pub mod Tests
