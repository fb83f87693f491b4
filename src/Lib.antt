-- ===== src/Lib.antt =====
-- Verification library of the Zigbee side of the Matter to Zigbee bridge: the C code under
-- zigbee_bridge/rt/rw61x/ZCB, which runs on the RW612 and speaks to a Zigbee control bridge (a
-- JN5189) over a serial line, and the bridge's own part of the Matter side. In what follows paths
-- are relative to that directory, unless they begin with bridge-app.
--
-- The parts, and how they meet. The serial link (SerialLink.c) puts messages into frames and reads
-- them back. A task that sends a command waits for the status that answers it; the reader task hands
-- received messages to the waiting tasks and to registered callbacks. On top of the link stand the
-- commands and requests (zcb.c, cmd.c), each of which fills a packed struct in network order, sends
-- it and maps the status of the link to that of the control bridge. The joined nodes (zcb.c) are a
-- table of five, with a copy in flash: a node that announces itself gets an entry, the Matter side
-- gives the entry a dynamic endpoint, and later sends commands to the node by that endpoint. The
-- device table (ZigbeeDevices.c) holds up to fifty devices with their endpoints, clusters and
-- attributes. A new device gets its entry when it announces itself, and is qualified from there: it is
-- asked for its endpoints, its clusters and its model, one request after each report, until its
-- clusters are bound and it is active. An attribute report of a device in the table goes to the Matter
-- side by a mailbox.
--
-- Which file models what:
--   Prelude    shared names and lemmas: Boolean tests, lists as C arrays, bit operations, words in
--              memory with the macros pri_ntohs, pri_ntohl, pri_ntohd of SerialLink.h (Words), and
--              Run, the outcome of C code: a value, a fault (an access outside its array or another
--              behaviour that C leaves undefined), or a loop that outran its fuel.
--   Link       SerialLink.c: constants, tsSL_Message. Link/Frame is eSL_WriteMessage with
--              u8SL_CalculateCRC and u8SL_LoadByteToTxBuffer; Link/Reader is eSL_ReadMessage with its
--              static variables as a record; Link/Waiters is eSL_MessageWait (claim up to the wait,
--              wake from there on) and eSL_MessageQueue; Link/Send is eSL_SendMessage and
--              eSL_SendMessageNoWait; Link/Dispatch is eSL_AddListener and serialReadTask.
--   Zcb        the calls of zcb.c (Zcb/Commands) and cmd.c (Zcb/Requests, Zcb/Ota). A call is a value
--              of the type Call: refused arguments, or a message type and the fields of its struct;
--              `perform` sends it and maps the status. Zcb/Fields has the layout of the structs in
--              memory and the receiver's reading of them, Zcb/Issued lists the calls, Zcb/OverLink
--              runs them over Link, and Zcb/Init has the registrations of eZCB_Init.
--   Nodes      JoinedNodes and savedNodes of zcb.c: Nodes/Store is StoreJoinedNode, Nodes/Join
--              the part of ZCB_HandleDeviceAnnounce that seats a node, UpdateJoinedNodes,
--              RestoreJoinedNodes and EnumJoinedNodes, Nodes/Leave the part of
--              ZCB_HandleDeviceLeave that removes one, Nodes/Bridged FindMatchedNodeByEP and the
--              Bridged functions.
--   Devices    ZigbeeDevices.c: the entries and the address checks; Devices/Table has the searches and
--              tZDM_AddNewDeviceToDeviceTable, Devices/Attributes the search and the erasure of
--              attributes and bZDM_EraseDeviceFromDeviceTable, Devices/Adding
--              tZDM_AddNewAttributeToAttributeTable with the search of a cluster.
--   Qualify    vZDM_NewDeviceQualifyProcess of ZigbeeDevices.c: Qualify/Phases has the cases of its
--              switch, Qualify/Process the loop. What becomes of each request (not sent, no message
--              within a second, a message) enters as a list of replies, beyond which none is sent.
--   Reports    ZCB_HandleAttributeReport of zcb.c (Reports/Handle) with the decoding of values, beside
--              that of ZCB_HandleReadAttrResp (Reports), and handleAttribute with eZCB_SendMsg over a
--              heap of allocated messages (Reports/Mailbox); Reports/Addresses is
--              ZCB_HandleNetworkAddressReponse and ZCB_HandleIeeeAddressReponse, Reports/Timers is
--              eDeviceTimer_Init and vDevTimerCallback, Reports/Descriptor the two loops of
--              ZCB_HandleSimpleDescriptorResponse over the clusters of an endpoint.
--   Events     the callbacks of zcb.c by which a device joins, with all that they change:
--              ZCB_HandleDeviceAnnounce, ZCB_HandleActiveEndPointResp,
--              ZCB_HandleSimpleDescriptorResponse, and ZCB_HandleReadAttrResp but for the value of
--              the attribute. Events/Joins follows one device through them, Events/Addresses has
--              the sequences of events that reach the device table.
--   Matter     bridge-app/nxp/rt/rw61x/main/src/BridgeMgr.cpp: Matter/Commands is
--              MatterPreCommandReceivedCallback with the functions for the clusters, Matter/Slots
--              AddZcbNode, AddDeviceEndpoint, RemoveDevice and RemoveAllDevice over the objects made
--              with new, Matter/Monitor the task ZcbMonitor with the restoration of devices after a
--              restart, Matter/Attributes emberAfExternalAttributeReadCallback; Matter/Reached follows
--              a node from its announcement to a Matter command.
--   Console    zigbee_cmd.c: the reading of addresses, endpoints and numbers; Console/Commands has the
--              commands of the ZDO with arguments, Console/Level zb-nwk-form and zb-zcl-level,
--              Console/Checked zb-zcl-onoff and zb-zcl-color; Console/Sent has the bounds of what they
--              send, Console/Typed what they send for addresses as they are typed.
-- The Tests modules run the definitions on concrete data and apply the theorems there.
--
-- State and numbers. State is passed explicitly, as records with the source's fields. Numbers are
-- natural numbers; where the source wraps, the definition has the remainder. An index outside an
-- array is a fault where C would go on with undefined behaviour.
--
-- Fuel. The loops of u8SL_CalculateCRC and of the payload in eSL_WriteMessage count with 8 bits: 256
-- units of fuel allow every value of the counter and the last test, which is enough for every
-- length below 256; with a greater length the loop of the source does not end. The loop of
-- vZDM_NewDeviceQualifyProcess has fuel for two rounds; a third is never begun, since the only state
-- that goes on leaves that state in its second round. The inner loop of AddDeviceEndpoint has as many
-- rounds as an argument says; one more than the endpoints that exist is enough. All other loops are
-- by recursion on their data.
--
-- Concurrency. eSL_SendMessage is given the messages that the reader task handles between its write
-- and its wait, and during its wait, which is over at once if the event is pending; one task sends
-- at a time, as the mutex of the source demands.
-- A timeout enters as the absence of an event when the wait ends.
--
-- Parameters. The flash storage (ramStorageReadFromFlash, ramStorageSavetoFlash) is a record of two
-- operations; theorems that need it assume that a read gives what was saved last. The operating
-- system enters by its answers: memory for a listener, room in the callback queue. The layout of an
-- enumeration inside a packed struct is the compiler's, and a parameter, as is the address of the
-- loop variable that eDeviceTimer_Init passes on. The Matter SDK enters by the answers of
-- emberAfSetDynamicEndpoint, by whether a command decodes, and by MakeZclCharString. The control bridge is taken to read frames and
-- words as this code does.
--
-- Not modelled: the values of attributes, the callbacks of zcb.c that only print what they get,
-- SaveJoinedNodes, serialCallbackTask, the other commands of zigbee_cmd.c, the shell (shell.c), the
-- serial port driver (serial.c), log output, and of the Matter side the changes of attributes and the start of
-- the application.
pub mod Prelude
pub mod Link
pub mod Zcb
pub mod Nodes
pub mod Devices
pub mod Qualify
pub mod Reports
pub mod Events
pub mod Matter
pub mod Console
