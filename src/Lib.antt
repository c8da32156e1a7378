-- ===== src/Lib.antt =====
-- A model of the browser client of the repository (web/): what its pages compute from the streams
-- that the hub sends, in TypeScript, with the user interface left out.
--
-- Router models web/utls/router.ts, the routing table of the map view. A table is built by
-- `buildTable` from a list of routes: `get_trie_tree_segment_lengths`, `do_insert_route`,
-- `insert_routes` and `build_table` follow the functions of those names, with the trie as the data
-- types NodeEntry, NextHeader and SubTrees, and `lookup` is `RouteTableWrapper.lookup`, its
-- `throw` a value of Result. The trie is finite, so the loops and the recursion of the source are
-- structural recursions here and there is no fuel. A key of `seg2SubTrees` is the number whose
-- decimal text is the key in the source.
--
-- IpAddr models web/utls/ipaddr.ts, the addresses that the table holds: `from_string`,
-- `get_masked_value` and `to_mask`. The package ipaddr.js is the parameter IpaddrJs. The router
-- sees an address through AddrLike, as the source does through `IPAddrLike`; what it relies on is
-- the record Router.Longest.IsSliced, and IpAddr/Slices gives it for addresses of the right size.
-- The source computes on BigInt there, so there is no wrap-around to write out.
--
-- Streams models web/utls/streams.ts, the parser of 32-bit words: `do_consume`, `transform` and
-- `flush` over the state Feedback, with the range errors of DataView as none, and `parse` as the
-- run of the whole stream.
--
-- JsonLines models LineTokenizer and JSONLineDecoder of web/apis/globalping.ts, with texts as
-- lists of UTF-16 code units and JSON.parse as a parameter. The loop of `transform` runs on the
-- length of its buffer as fuel, since each round takes a newline from it; JsonLines/Ends shows
-- that this is enough. Samples models the samples of that file, `pingSampleFromTCPEvent` and
-- `pingSampleFromEvent`, and the pipeline of `generatePingSampleStream`; a latency stands in
-- millionths of a millisecond.
--
-- Trace models web/apis/trace.ts, a class a file: TraceEvent in Trace, PeerStats in Trace/Peer,
-- HopGroup in Trace/Hop, TraceStats in Trace/Stats and its `ToTable` in Trace/Table. Numbers of
-- the events are natural numbers, a map is an association list in the order of insertion, and the
-- -1 of a time that is not there is none. Percentages are exact, where the source divides in
-- floating point.
--
-- Mrt models processMRTStream and the hook of web/apis/mrtProviders.ts: `on_read` is what one
-- result of a stream does, `restart` is the effect, `load_more` is `loadMore` and `deliver` a
-- result that arrives; Mrt/Pages has the relation of these steps. Mrt/Queries models the filters
-- of the lister that answers from data at hand, with the package ipaddr.js as the parameter
-- IpaddrRanges. An abort controller is a number, and React is taken to render between two steps.
--
-- IpQuery models processIPQueryStream and the hook of web/apis/ip-query.ts, for one run of the
-- effect: the results of the stream in their order, with one for a read under an aborted signal.
--
-- Zones models web/apis/nwdesc.ts, the zones that a domain lies in: `normalize` and
-- `domain_descriptor_lookup`, with the test of the filter as `in_zone` and the comparator of the
-- sort as `longer_first`. A text is the list of its code units and `toLowerCase` is a parameter.
--
-- Nodes models the list of nodes that can ping, in web/apis/globalping.ts: `sort_and_dedup` and
-- `get_current_pinger_options`, whose response is an argument: none for a failed request, else the
-- values of it that are objects, each with an object for its attributes or none. `localeCompare`
-- is a parameter.
--
-- HttpProbe models web/apis/httpprobe.ts, with Date.parse and the present as parameters, in whole
-- milliseconds, which lie below 0 before 1970.
--
-- PingStream models generatePingSampleStream and the request of a ping task in
-- web/apis/globalping.ts: `run_events` is what the stream does as the response comes, reads are
-- answered and the page cancels, and `ping_params` the parameters of the URL.
--
-- NodeGroups models getNodeGroups and its helpers of web/apis/utils.ts, with the floats of a
-- coordinate as a parameter. DnsPlan models the plan of a DNS task in web/apis/types.ts, and Tasks
-- the making of a task in web/components/TaskCreatorPanel.tsx: `words_of` reads a field, and
-- `expand_task` fills a task with the targets of its kind.
--
-- PingTable models the map of samples of web/components/pingdisplay.tsx, with a table that an
-- update shares with its next state as the field `prev`, and PingMap the markers that a row of
-- that table puts on the map and the line about a sample. Report models the reports of that file
-- and the rows that web/components/traceroutereport.tsx makes of them, with the texts of a date,
-- of capitals and of a number with two decimals as parameters. CanvasTable models
-- web/components/canvastable.tsx: `re_structure_table` cuts rows into columns, and `do_paint` lays
-- the texts out, with `measureText` as a parameter. Lengths are whole numbers of a unit that may
-- be any part of a pixel, and the size of the canvas is cut to whole pixels, as its attributes
-- are.
--
-- EventsRead models the hook and the filter of web/components/EventsBrowser.tsx, with the order of
-- texts as a parameter, DnsAnswers the answers map of web/components/dnsprobedisplay.tsx, and
-- TraceRead the hook of web/components/traceroutedisplay.tsx with its pause button: `trace_step`
-- is what a result of its reader or a press does to its state. TraceMap models the markers and
-- paths that this file puts on the map, with `to_geodesic_paths`, which computes with floats, as a
-- parameter; TraceMap/NodeText is the report of a trace and the line about its node. Colors models
-- the colour of a latency in web/components/colorfunc.tsx.
--
-- RouteDisplay models the state of web/components/RouteQueryResultDisplay.tsx on top of the hook
-- of Mrt: `press_load_more` and `press_refresh` are its buttons, `all_entries` what it lists, and
-- `stats_of` the numbers above the list.
--
-- MapShapes models parts of web/components/worldmap.tsx: the rings of the shapes in coordinates of
-- any depth, and the cut of a path between the halves of the map, from its points on. Longitudes
-- are whole numbers of a unit that may be any part of a degree, and `sine` is the sign of the sine
-- that the test of `markVector3` multiplies.
--
-- Classify models the hook of web/apis/useAddressClassify.ts, which puts Router, IpAddr and Zones
-- together: `routes_of` reads the networks, with parseCIDR of ipaddr.js as the parameter CidrJs,
-- and `use_address_classify` is what the hook returns, or the error of the table. Classify/Routed
-- shows that it throws none, and Classify/Matched which networks and domains an input gets.
--
-- Common holds the shared lists, texts, filters, sorts, maps and Boolean tests, and Tests the
-- concrete runs.
--
-- Not modelled: the markup of the React components, the geometry of the map in floats, the
-- requests themselves (the arguments of the models are what arrives), and the Go services of the
-- repository.
pub mod CanvasTable
pub mod Classify
pub mod Colors
pub mod Common
pub mod DnsAnswers
pub mod DnsPlan
pub mod EventsRead
pub mod HttpProbe
pub mod IpAddr
pub mod IpQuery
pub mod JsonLines
pub mod MapShapes
pub mod Mrt
pub mod NodeGroups
pub mod Nodes
pub mod PingMap
pub mod PingStream
pub mod PingTable
pub mod Report
pub mod RouteDisplay
pub mod Router
pub mod Samples
pub mod Streams
pub mod Tasks
pub mod Tests
pub mod Trace
pub mod TraceMap
pub mod TraceRead
pub mod Zones
