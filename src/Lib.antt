-- ===== src/Lib.antt =====
-- A verification library for beiran, a peer-to-peer distribution layer for container images.
--
-- A daemon runs on each node. It finds other nodes, keeps a connection to each of them (a peer),
-- syncs the plugins' data with theirs, and serves an HTTP interface to clients. Plugins handle the
-- packages: the container plugin keeps the images and layers and fetches what is missing.
--
-- Which file models what (paths from the root of the repository):
--   ImageRef: plugins/beiran_package_container/image_ref.py. A text is the list of its code points;
--     the functions have the names of the source.
--   Subpath: `parse_subpath` of beiran/util.py with its helpers; `int` is modelled on ASCII text.
--     The loops run on fuel, the number of characters left, since every round takes one.
--   JsonStreamer: `json_streamer` of beiran/util.py. `Stream` holds the variables of the generator
--     and what it has yielded, `handle` is the body of the loop over the queue. The JSON parser is
--     a package, so a parameter: `queued` says which events it gives for some chunks.
--   Plugin: beiran/plugin.py, the status, the configuration and the history of plugins.
--   Peer: beiran/daemon/peer.py, `sync` and `peerloop`. What the remote daemon answers, whether the
--     first request for its status raises and whether the plugins' syncs raise is the input. Writes to the database succeed.
--   Probe: `probe_node` of beiran/daemon/peer.py with the registry of peers, over Nodes. What the
--     fetches of node information give is the input; the retries are not negative.
--   Container: plugins/beiran_package_container. Model has the rows of models.py, Store what util.py
--     and container.py do to the tables. `Table` is the interface of a table, as peewee documents
--     it; ListTable implements it. Chain has the mappings from diff ids to digests and chain ids;
--     SHA-256 is a parameter. Registry has the requests to a registry, Manifest the dispatch on the
--     manifest of an image; there the handlers of the two schemas are arguments. Layers has the way
--     of a layer to the cache; a file is the chunks that were written to it.
--     Tags has the search of an image and its tags; how the database compares by LIKE is a parameter.
--     Digests has the diff id of a layer; its loops run on one more than the bytes of the file as fuel,
--     as each turn takes a byte at least. Tarball has the image that is made for docker to load.
--   Docker: plugins/beiran_interface_docker, plugin_docker.py, util.py and api.py. Storage has what is read
--     from docker's files, LayerTable the interface of the table of layers, Peers the sync with a
--     peer, Mappings, Images and Ensure the layers that docker has, Interface the methods of the
--     plugin that save and delete images, Events the probing of the daemon and its events. Archive has
--     the archive of a layer for another node, Routes the routes of the HTTP interface, Pull the pull
--     of a whole image with what it writes to the response. The files, what the daemon answers,
--     what a peer sends, or that the request to it raises, and whether docker imports a stream are
--     arguments. The wait on update_docker_info, whose turns Events/Waits has, is not a part of the run
--     of probe_daemon.
--   Http: beiran/lib.py, requests with retries. What becomes of each try is the input.
--   Nodes: beiran/daemon/nodes.py with `Node.add_or_update` of beiran/models/node.py. `NodeTable` is
--     the interface of the table of nodes. The addresses that saving a node stores are left out.
--   Address: `PeerAddress` of beiran/models/node.py. Rows has its table, `AddressTable` being the
--     interface. Url has what it uses of Python's urlparse, on ASCII text.
--   Bootstrap: the probing at the start of the daemon without discovery, beiran/daemon/main.py.
--   Handlers: the request to probe a node, beiran/daemon/http_ws.py, over Nodes, Address and Probe.
--   Local: beiran/daemon/lib.py with `on_plugin_state_update` of beiran/daemon/main.py, the files in which
--     the daemon keeps its uuid and the version of its state.
--   Config: beiran/config.py. `Val` is what a TOML file may hold, with texts in its arrays; the
--     environment is a function. `str.upper` is modelled on ASCII text.
--   Version: beiran/version.py, `get_version`; the decimal numeral of a number is a parameter.
--   Base: shared notation, Python's `str` methods, numerals, dicts and integers.
--
-- Text is compared and cut by code points, as Python does. Times are natural numbers, counts of some
-- fraction of a second. Logging is left out. Exceptions are error values or flags; what was changed
-- before an exception stays changed.
-- Not modelled: the database (peewee), HTTP clients and servers (aiohttp), gRPC stubs, the command
-- line, progress bars, discovery, the containerd interface, the other HTTP handlers, among
-- them the pull of an image by layers, and the rest of the start of the daemon.
pub mod Base
pub mod ImageRef
pub mod Subpath
pub mod JsonStreamer
pub mod Plugin
pub mod Peer
pub mod Container
pub mod Http
pub mod Nodes
pub mod Config
pub mod Probe
pub mod Version
pub mod Docker
pub mod Url
pub mod Address
pub mod Bootstrap
pub mod Handlers
pub mod Local
